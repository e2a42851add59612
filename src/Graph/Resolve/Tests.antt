-- ===== src/Graph/Resolve/Tests.antt =====
-- Mentions resolved against small graphs by `_resolve_mention` of src/cranus/graph/pipeline.py, and its
-- theorem there. A score counts in percent.
use cranus.Base.{
  length, ℕ, ◌+◌, ◌/◌, ◌≡◌, refl, true, false, [], ◌∷◌, arith, Str, codes, str_eq, is_space, ltb,
  IsOrder, if◌then◌else◌,
}
use cranus.Graph.Store.{Entity, Graph}
use cranus.Graph.Resolve.{
  Mention, Names, Resolution, best_candidate, block_key, score_pair, resolve_mention,
}
use cranus.Graph.Resolve.Matched.{IsResolved, resolve_mention-IsResolved}

abbrev first_char : Str → Str
first_char [] = []
first_char (c ∷ s) = c ∷ []

abbrev equal_score : Str → Str → ℕ
equal_score a b = if str_eq a b then 100 else 60

abbrev names : Names ℕ
names = record {
  lower = λ s. s;
  metaphone = first_char;
  token_sort_ratio = equal_score;
  jaro_winkler_similarity = λ a b. 100;
  weighted = λ a b. (a + b) / 2;
}

abbrev acme : Entity
acme = record {
  id = codes "e1";
  type_name = codes "ORG";
  canonical_name = codes "Acme";
  aliases = codes "ACME" ∷ [];
}

abbrev graph : Graph ℕ
graph = record { entities = acme ∷ []; mentions = []; edges = []; reviews = [] }

abbrev mention : Str → Mention
mention text = record {
  span_text = text;
  span_start = 0;
  span_end = length text;
  ner_type = codes "ORG";
}

abbrev resolve : Mention → Resolution ℕ
resolve m = resolve_mention ℕ names ltb 0 92 75 (codes "e2") (codes "r1") m graph

resolve-known : (resolve (mention (codes "Acme"))).created ≡ false
unfolding resolve_mention best_candidate block_key score_pair is_space
resolve-known = refl

resolve-alike : (resolve (mention (codes "Acme Ltd"))).review_queued ≡ true
unfolding resolve_mention best_candidate block_key score_pair is_space
resolve-alike = refl

resolve-unlike : (resolve (mention (codes "Bolt"))).review_queued ≡ false
unfolding resolve_mention best_candidate block_key score_pair is_space
resolve-unlike = refl

ltb-IsOrder : IsOrder ltb
ltb-IsOrder = record {
  asym = λ x y h. ground (arith, h);
  trans = λ x y z h k. ground (arith, h, k);
}

resolve_mention-IsResolved_example :
    IsResolved ℕ names ltb 0 92 75
      (codes "e2")
      (codes "r1")
      (mention (codes "Acme Ltd"))
      graph
      (resolve (mention (codes "Acme Ltd")))
resolve_mention-IsResolved_example =
    resolve_mention-IsResolved ℕ names ltb 0 92 75 ltb-IsOrder (codes "e2") (codes "r1")
      (mention (codes "Acme Ltd")) graph refl refl
