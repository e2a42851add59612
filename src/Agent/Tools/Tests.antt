-- ===== src/Agent/Tools/Tests.antt =====
-- Small searches and names for src/cranus/agent/tools.py, and its theorems there. A score is a number.
use cranus.Base.{
  ℕ, ◌==◌, ◌≡◌, refl, some, List, [], ◌∷◌, ◌++◌, arith, Str, codes, ltb, str_eq, if◌then◌else◌,
}
use cranus.Retrieval.Fusion.{RetrievedChunk, rrf_merge}
use cranus.Retrieval.Fusion.Tests.{sum, thousandths, ℕ-IsOrder}
use cranus.Graph.Store.{Entity}
use cranus.Graph.Resolve.{Names, score_pair}
use cranus.Graph.Lookup.{Scores}
use cranus.Agent.Loop.{Item}
use cranus.Agent.Tools.{search_text, best_entity, resolve_entity}
use cranus.Agent.Tools.Searched.{AreSearched, search_text-AreSearched}
use cranus.Agent.Tools.Named.{IsNamed, resolve_entity-IsNamed}
use cranus.Base.{IsOrder}

abbrev chunk : Str → RetrievedChunk
chunk id = record { chunk_id = id; doc_id = codes "d"; text = id }

abbrev lexical : Str → ℕ → List RetrievedChunk
lexical query k = chunk (codes "a") ∷ chunk (codes "b") ∷ []

abbrev vector : Str → ℕ → List RetrievedChunk
vector query k = chunk (codes "b") ∷ chunk (codes "c") ∷ []

abbrev item : Str → Item
item id = record { id = id; text = id }

search_text-two :
    search_text ℕ 0 sum thousandths ltb 9 lexical vector (codes "q") 2
    ≡ some (item (codes "b") ∷ item (codes "a") ∷ [])
unfolding search_text rrf_merge
search_text-two = refl

search_text-AreSearched_example :
    (items : List Item) × (search_text ℕ 0 sum thousandths ltb 9 lexical vector (codes "q") 2
      ≡ some items)
    × AreSearched (lexical (codes "q") 2 ++ vector (codes "q") 2) 2 items
search_text-AreSearched_example =
    search_text-AreSearched ℕ 0 sum thousandths ltb 9 lexical vector (codes "q") 2 ℕ-IsOrder

-- Equal texts have ten points for each measure, others one.
abbrev ratio : Str → Str → ℕ
ratio a b = if str_eq a b then 10 else 1

abbrev names : Names ℕ
names = record {
  lower = λ s. s;
  metaphone = λ s. s;
  token_sort_ratio = ratio;
  jaro_winkler_similarity = ratio;
  weighted = sum;
}

abbrev scores : Scores ℕ
scores = record {
  zero_score = 0;
  default_confidence = 5;
  evidence_score = 9;
  match_threshold = 12;
  is_zero = λ n. n == 0;
  less = ltb;
}

abbrev acme : Entity
acme = record {
  id = codes "e1";
  type_name = codes "Organization";
  canonical_name = codes "Acme";
  aliases = [];
}

abbrev bolt : Entity
bolt = record {
  id = codes "e2";
  type_name = codes "Organization";
  canonical_name = codes "Bolt";
  aliases = [];
}

resolve_entity-bolt :
    resolve_entity ℕ scores names (acme ∷ bolt ∷ []) (codes "Bolt")
    ≡ record { id = codes "e2"; text = codes "Resolved 'Bolt' to entity 'Bolt' (Organization)" }
      ∷ []
unfolding resolve_entity best_entity score_pair
resolve_entity-bolt = refl

resolve_entity-unknown : resolve_entity ℕ scores names (acme ∷ bolt ∷ []) (codes "Crux") ≡ []
unfolding resolve_entity best_entity score_pair
resolve_entity-unknown = refl

ltb-IsOrder : IsOrder ltb
ltb-IsOrder = record {
  asym = λ x y h. ground (arith, h);
  trans = λ x y z h k. ground (arith, h, k);
}

resolve_entity-IsNamed_example :
    IsNamed ℕ scores names
      (codes "Bolt")
      (acme ∷ bolt ∷ [])
      (resolve_entity ℕ scores names (acme ∷ bolt ∷ []) (codes "Bolt"))
resolve_entity-IsNamed_example =
    resolve_entity-IsNamed ℕ scores names (codes "Bolt") ltb-IsOrder (acme ∷ bolt ∷ []) refl
