-- ===== src/Graph/Documents/Tests.antt =====
-- A document of one sentence processed by src/cranus/graph/pipeline.py, and its theorem there. A score counts in
-- percent, and an id is the letter `r` repeated.
use cranus.Base.{
  ℕ, zero, suc, ◌+◌, ◌/◌, ◌≡◌, refl, [], ◌∷◌, List, Str, codes, str_eq, is_space, ltb, length,
  if◌then◌else◌,
}
use cranus.Graph.Store.{Graph}
use cranus.Graph.Edges.{promote_edge_candidates, put_edge}
use cranus.Graph.Resolve.{Names, block_key, score_pair, best_candidate, resolve_mention}
use cranus.Graph.Relations.{
  founded_step, acquired_step, subsidiary_step, owned_step, scan_tokens, with_fallbacks,
  sentence_relations, all_relations, dedupe_relations, extract_relations,
}
use cranus.Graph.Relations.Mentions.{
  mentions_in_span, mention_for_token, arg_mentions, verb_subjects, agent_mentions, pairs,
  person_pairs,
}
use cranus.Graph.Relations.Tests.{founding, founding_sentence}
use cranus.Graph.Documents.{
  Ent, label_map, extract_mentions, Model, ChunkText, Limits, Run, add_rows, add_candidates,
  resolve_rows, process_chunks, promote_chunks, process_document,
}
use cranus.Graph.Documents.Processed.{IsProcessed, process_document-IsProcessed}

abbrev fresh : ℕ → Str
fresh zero = codes "r"
fresh (suc n) = b'r' ∷ fresh n

abbrev names : Names ℕ
names = record {
  lower = λ s. s;
  metaphone = λ s. s;
  token_sort_ratio = λ a b. if str_eq a b then 100 else 20;
  jaro_winkler_similarity = λ a b. if str_eq a b then 100 else 40;
  weighted = λ a b. (a + b) / 2;
}

abbrev limits : Limits ℕ
limits = record {
  less = ltb;
  zero_score = 0;
  high = 92;
  review = 75;
  promotion = 50;
  of_hundredths = λ n. n;
}

abbrev ent : Str → ℕ → Str → Ent
ent text start label = record {
  text = text;
  start_char = start;
  end_char = start + length text;
  label = label;
}

abbrev model : Model ℕ
model = record {
  ents = λ text.
      ent (codes "Ann") 0 (codes "PERSON")
      ∷ ent (codes "Bob") 8 (codes "PERSON")
      ∷ ent (codes "Acme") 20 (codes "ORG")
      ∷ [];
  parse = founding;
  sents = λ text. founding_sentence ∷ [];
}

abbrev chunks : List ChunkText
chunks = record { id = codes "c1"; text = codes "Ann and Bob founded Acme." } ∷ []

abbrev no_graph : Graph ℕ
no_graph = record { entities = []; mentions = []; edges = []; reviews = [] }

abbrev processed : Run ℕ
processed = process_document ℕ limits names fresh model chunks no_graph [] 0

process_document-edges : processed.edges_created ≡ 2
unfolding process_document promote_chunks process_chunks resolve_rows add_candidates add_rows
    extract_mentions label_map promote_edge_candidates put_edge resolve_mention best_candidate
    block_key score_pair is_space extract_relations dedupe_relations all_relations
    sentence_relations scan_tokens with_fallbacks founded_step acquired_step subsidiary_step
    owned_step pairs person_pairs arg_mentions verb_subjects agent_mentions mention_for_token
    mentions_in_span
process_document-edges = refl

process_document-IsProcessed_example : IsProcessed ℕ limits names fresh no_graph [] processed
process_document-IsProcessed_example =
    process_document-IsProcessed ℕ limits names fresh model chunks no_graph [] 0
      (record { no_loops = tt; unique = tt })
