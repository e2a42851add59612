-- ===== src/Query/Verify/Tests.antt =====
-- Runs of src/cranus/query/verify.py on a small answer, and its theorems there.
use cranus.Base.{
  ℕ, ◌≡◌, refl, ◌↔◌, Bool, false, List, [], ◌∷◌, All, Has, Str, codes, is_space, keep_if, decimal,
  none,
}
use cranus.Query.Verify.{
  Claim, sentences, find_citations, cited_ids, verify_citations, id_char, collect_claims,
}
use cranus.Query.Verify.Citations.{Cites, find_citations-exact}
use cranus.Query.Verify.Answer.{Shape, cites_source, verify_citations-Shape}
use cranus.Query.Verify.Grounding.{IsGrounded, verify_citations-IsGrounded}

abbrev ascii_only : ℕ → Bool
ascii_only c = false

-- Two sentences cite something; one of them a source that is not in context.
abbrev raw_answer : Str
raw_answer = codes "Acme began in 1999 [c-1]. It grew.  See [c-9] and [c 1]!"

abbrev context : List Str
context = codes "c-1" ∷ codes "c-2" ∷ []

sentences-raw_answer :
    sentences raw_answer
    ≡ codes "Acme began in 1999 [c-1]." ∷ codes "It grew." ∷ codes "See [c-9] and [c 1]!" ∷ []
unfolding sentences is_space
sentences-raw_answer = refl

find_citations-raw_answer :
    find_citations ascii_only none raw_answer ≡ codes "c-1" ∷ codes "c-9" ∷ []
unfolding find_citations id_char
find_citations-raw_answer = refl

verify-raw_answer : verify_citations ascii_only raw_answer context ≡ record {
  text = codes "Acme began in 1999 [c-1].";
  claims =
      record {
        id = codes "c1";
        text = codes "Acme began in 1999 [c-1].";
        supported_by = codes "c-1" ∷ [];
      }
      ∷ [];
  confidence = (1, 3);
  insufficient_evidence = false;
}
unfolding verify_citations sentences is_space collect_claims cited_ids find_citations id_char
    decimal
verify-raw_answer = refl

find_citations-exact_example :
    Has (codes "c-9") (find_citations ascii_only none raw_answer)
    ↔ Cites ascii_only (codes "c-9") raw_answer
find_citations-exact_example = find_citations-exact ascii_only (codes "c-9") raw_answer

abbrev first_claim : Claim
first_claim = record {
  id = codes "c1";
  text = codes "Acme began in 1999 [c-1].";
  supported_by = codes "c-1" ∷ [];
}

verify_citations-Shape_example :
    Shape
      (sentences raw_answer)
      (keep_if (cites_source ascii_only context) (sentences raw_answer))
      (verify_citations ascii_only raw_answer context)
verify_citations-Shape_example = verify_citations-Shape ascii_only context raw_answer

verify_citations-IsGrounded_example :
    All (IsGrounded ascii_only context) (verify_citations ascii_only raw_answer context).claims
verify_citations-IsGrounded_example = verify_citations-IsGrounded ascii_only context raw_answer
