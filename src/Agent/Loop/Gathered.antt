-- ===== src/Agent/Loop/Gathered.antt =====
-- The ids that the tools return, and the ids gathered, in the loop of src/cranus/agent/loop.py.
use cranus.Base.{
  ◌≡◌, sym, ap, ◌∙◌, ◌⊎◌, ◌↔◌, inl, inr, List, [], ◌∷◌, ◌++◌, append_assoc, append-nil, Str, Has,
  Bool-cases, str_eq, str_eq→eq,
}
use cranus.Agent.Loop.{
  Item, Outcome, HistoryStep, result, put_item, gather, unknown_tool, duplicate_call, ids,
}

pub Has-append : (i : Str) (xs ys : List Str) → Has i (xs ++ ys) ↔ (Has i xs ⊎ Has i ys)
Has-append i [] ys = (λ m. inr m, λ m. elim m [ inl h ↦ absurd h | inr h ↦ h ])
Has-append i (x ∷ xs) ys = (
  λ m. elim m [
    | inl e ↦ inl (inl e)
    | inr m' ↦ elim ((Has-append i xs ys).0 m') [ inl h ↦ inl (inr h) | inr h ↦ inr h ]
  ],
  λ m. elim m [
    | inl h ↦ elim h [ inl e ↦ inl e | inr h' ↦ inr ((Has-append i xs ys).1 (inl h')) ]
    | inr h ↦ inr ((Has-append i xs ys).1 (inr h))
  ],
)

put_item-Has :
    (item : Item) (gs : List Item) (i : Str)
    → Has i (ids (put_item item gs)) ↔ ((i ≡ item.id) ⊎ Has i (ids gs))
unfolding put_item
put_item-Has item [] i = (λ m. m, λ m. m)
put_item-Has item (g ∷ gs) i = elim (Bool-cases (str_eq g.id item.id)) [
  | inl e ↦ rw e (
    λ m. elim m [ inl h ↦ inl h | inr h ↦ inr (inr h) ],
    λ m. elim m [
      | inl h ↦ inl h
      | inr (inl h) ↦ inl (h ∙ str_eq→eq g.id item.id e)
      | inr (inr h) ↦ inr h
    ],
  )
  | inr e ↦ rw e (
    λ m. elim m [
      | inl h ↦ inr (inl h)
      | inr h ↦ elim ((put_item-Has item gs i).0 h) [ inl h' ↦ inl h' | inr h' ↦ inr (inr h') ]
    ],
    λ m. elim m [
      | inl h ↦ inr ((put_item-Has item gs i).1 (inl h))
      | inr (inl h) ↦ inl h
      | inr (inr h) ↦ inr ((put_item-Has item gs i).1 (inr h))
    ],
  )
]

pub gather-Has :
    (items gs : List Item) (i : Str)
    → Has i (ids (gather items gs)) ↔ (Has i (ids items) ⊎ Has i (ids gs))
unfolding gather
gather-Has [] gs i = (λ m. inr m, λ m. elim m [ inl h ↦ absurd h | inr h ↦ h ])
gather-Has (item ∷ items) gs i = (
  λ m. elim ((gather-Has items (put_item item gs) i).0 m) [
    | inl h ↦ inl (inr h)
    | inr h ↦ elim ((put_item-Has item gs i).0 h) [ inl e ↦ inl (inl e) | inr h' ↦ inr h' ]
  ],
  λ m. elim m [
    | inl (inl e) ↦
        (gather-Has items (put_item item gs) i).1 (inr ((put_item-Has item gs i).1 (inl e)))
    | inl (inr h) ↦ (gather-Has items (put_item item gs) i).1 (inl h)
    | inr h ↦ (gather-Has items (put_item item gs) i).1 (inr ((put_item-Has item gs i).1 (inr h)))
  ],
)

abbrev pub items_of : Outcome → List Item
items_of (result items) = items
items_of unknown_tool = []
items_of duplicate_call = []

-- The ids that the calls of the history returned.
abbrev pub found_ids : List HistoryStep → List Str
found_ids [] = []
found_ids (h ∷ hs) = ids (items_of h.outcome) ++ found_ids hs

pub found_ids-snoc :
    (hs : List HistoryStep) (h : HistoryStep)
    → found_ids (hs ++ h ∷ []) ≡ found_ids hs ++ ids (items_of h.outcome)
found_ids-snoc [] h = append-nil (ids (items_of h.outcome))
found_ids-snoc (g ∷ hs) h =
    ap (λ l. ids (items_of g.outcome) ++ l) (found_ids-snoc hs h)
    ∙ sym (append_assoc (ids (items_of g.outcome)) (found_ids hs) (ids (items_of h.outcome)))
