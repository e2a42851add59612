-- ===== src/Graph/Relations/Vocabulary.antt =====
-- The words by which src/cranus/graph/relation_extraction.py knows a relation.
use cranus.Base.{Bool, false, ◌||◌, List, [], ◌∷◌, Str, codes, str_eq, starts_with}

abbrev pub founded_triggers : List Str
founded_triggers =
    codes "founded"
    ∷ codes "co-founded"
    ∷ codes "cofounded"
    ∷ codes "started the company"
    ∷ codes "established"
    ∷ []

abbrev pub cofounder_triggers : List Str
cofounder_triggers =
    codes "co-founder" ∷ codes "cofounder" ∷ codes "co-founded" ∷ codes "cofounded" ∷ []

abbrev pub subsidiary_triggers : List Str
subsidiary_triggers =
    codes "subsidiary of" ∷ codes "owned by" ∷ codes "a unit of" ∷ codes "division of" ∷ []

abbrev pub acquired_triggers : List Str
acquired_triggers = codes "acquired" ∷ codes "acquisition of" ∷ codes "bought" ∷ []

abbrev pub founded_lemmas : List Str
founded_lemmas = codes "found" ∷ codes "establish" ∷ codes "cofound" ∷ codes "cofounde" ∷ []

abbrev pub acquired_lemmas : List Str
acquired_lemmas = codes "acquire" ∷ codes "buy" ∷ []

abbrev pub own_lemmas : List Str
own_lemmas = codes "own" ∷ []

abbrev pub subsidiary_nouns : List Str
subsidiary_nouns = codes "subsidiary" ∷ codes "unit" ∷ codes "division" ∷ []

-- `trigger in text`
abbrev pub is_within : Str → Str → Bool
is_within trigger [] = str_eq trigger []
is_within trigger (c ∷ s) = starts_with trigger (c ∷ s) || is_within trigger s

abbrev pub has_any : List Str → Str → Bool
has_any [] text = false
has_any (t ∷ ts) text = is_within t text || has_any ts text

-- The triggers that a sentence has.
pub record Triggers : Type 0 where
  pub has_founded : Bool
  pub has_cofounder : Bool
  pub has_subsidiary : Bool
  pub has_acquired : Bool

abbrev pub triggers_of : Str → Triggers
triggers_of sentence_lower = record {
  has_founded = has_any founded_triggers sentence_lower;
  has_cofounder = has_any cofounder_triggers sentence_lower;
  has_subsidiary = has_any subsidiary_triggers sentence_lower;
  has_acquired = has_any acquired_triggers sentence_lower;
}

abbrev pub person : Str
person = codes "Person"

abbrev pub organization : Str
organization = codes "Organization"
