-- ===== src/Frontend/Ranking/Terms.antt =====
-- The lists of paths and words that the signals of search_ranking_policy.py look for.
use web_search.Prelude.{List, [], ◌∷◌, nat_eq, list_eq, Text, codes}

abbrev pub rootish_paths : List Text
rootish_paths =
    []
    ∷ codes "/"
    ∷ codes "/docs"
    ∷ codes "/docs/"
    ∷ codes "/learn"
    ∷ codes "/learn/"
    ∷ codes "/reference"
    ∷ codes "/reference/"
    ∷ []

abbrev pub comparison_low_signal_path_terms : List Text
comparison_low_signal_path_terms =
    codes "/pricing"
    ∷ codes "/pricing/"
    ∷ codes "/alternative"
    ∷ codes "/alternatives"
    ∷ codes "/review"
    ∷ codes "/reviews"
    ∷ codes "/category"
    ∷ codes "/categories"
    ∷ codes "/products"
    ∷ codes "/product/"
    ∷ []

abbrev pub comparison_low_signal_title_terms : List Text
comparison_low_signal_title_terms =
    codes "pricing"
    ∷ codes "alternative"
    ∷ codes "alternatives"
    ∷ codes "review"
    ∷ codes "reviews"
    ∷ []

abbrev pub recruiting_host_terms : List Text
recruiting_host_terms = codes "talentio.com" ∷ codes "wantedly.com" ∷ codes "breezy.hr" ∷ []

abbrev pub recruiting_path_terms : List Text
recruiting_path_terms =
    codes "/careers"
    ∷ codes "/career"
    ∷ codes "/jobs"
    ∷ codes "/job"
    ∷ codes "/hiring"
    ∷ codes "/recruit"
    ∷ codes "/career_page"
    ∷ []

abbrev pub recruiting_title_terms : List Text
recruiting_title_terms =
    codes "career"
    ∷ codes "careers"
    ∷ codes "hiring"
    ∷ codes "job"
    ∷ codes "jobs"
    ∷ codes "recruit"
    ∷ []
