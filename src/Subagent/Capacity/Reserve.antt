-- ===== src/Subagent/Capacity/Reserve.antt =====
-- What a reservation does to the map.
use zch_coding_agent.Base.{
  ℕ, suc, ◌+◌, ◌≤◌, ◌<◌, ◌≡◌, refl, sym, ap, ◌∙◌, subst, ◌⊎◌, inl, inr, Bool, true, false, not,
  ◌||◌, none, some, List, [], ◌∷◌, arith, ltb, ltb→lt, if◌then◌else◌, Bool-cases, Option-cases,
  length, ◌==◌, nat_eq, string_eq, ==_refl, ok, String,
}
use zch_coding_agent.Base.Maps.{lookup, insert, delete, lookup-insert}
use zch_coding_agent.Subagent.Capacity.{
  Held, count, is_foreign, member, unique, not_held, set_all, reserve,
}

-- The two ways in which `reserve` gives an answer.
pub reserve-taken :
    (held : Held) (owner : String) (ids : List String) (limit : ℕ) {after : Held}
    → reserve held owner ids limit ≡ ok (true, after)
    → (is_foreign held owner ids ≡ false)
      × (count owner held + length (not_held held (unique [] ids)) ≤ limit)
      × (set_all owner (not_held held (unique [] ids)) held ≡ after)
unfolding reserve
reserve-taken held owner ids limit h = elim (Bool-cases (is_foreign held owner ids)) [
  | inl f ↦ absurd (ground arith)
  | inr f ↦
      elim (Bool-cases (ltb limit (count owner held + length (not_held held (unique [] ids))))) [
        | inl e ↦ absurd (ground arith)
        | inr e ↦ (f, ground arith, ground arith)
      ]
]

pub reserve-refused :
    (held : Held) (owner : String) (ids : List String) (limit : ℕ) {after : Held}
    → reserve held owner ids limit ≡ ok (false, after)
    → (held ≡ after) × (limit < count owner held + length (not_held held (unique [] ids)))
unfolding reserve
reserve-refused held owner ids limit h = elim (Bool-cases (is_foreign held owner ids)) [
  | inl f ↦ absurd (ground arith)
  | inr f ↦
      elim (Bool-cases (ltb limit (count owner held + length (not_held held (unique [] ids))))) [
        | inl e ↦ (ground arith, ltb→lt _ _ e)
        | inr e ↦ absurd (ground arith)
      ]
]

lookup-set_all :
    (owner : String) (ids : List String) (held : Held) (k : String)
    → lookup k (set_all owner ids held) ≡ (if member k ids then some owner else lookup k held)
unfolding set_all member
lookup-set_all owner [] held k = refl
lookup-set_all owner (id ∷ ids) held k =
    lookup-set_all owner ids (insert id owner held) k ∙ elim (Bool-cases (member k ids)) [
      | inl m ↦ rw m (ground arith)
      | inr m ↦ rw m (lookup-insert id k owner held ∙ ground arith)
    ]

pub not_held-fresh :
    (held : Held) (ids : List String) (id : String)
    → lookup id held ≡ none
    → not_held held (id ∷ ids) ≡ id ∷ not_held held ids
unfolding not_held
not_held-fresh held ids id n = rw (not_held, n) refl

pub not_held-old :
    (held : Held) (ids : List String) (id : String) {o : String}
    → lookup id held ≡ some o
    → not_held held (id ∷ ids) ≡ not_held held ids
unfolding not_held
not_held-old held ids id s = rw (not_held, s) refl

-- What is held is not fresh.
member-not_held :
    (held : Held) (ids : List String) (k : String)
    → member k (not_held held ids) ≡ (elim (lookup k held) [ none ↦ member k ids | some o ↦ false ])
unfolding not_held member
member-not_held held [] k = elim (Option-cases (lookup k held)) [
  | inl n ↦ rw n refl
  | inr (o, s) ↦ rw s refl
]
member-not_held held (id ∷ ids) k = elim (Option-cases (lookup id held)) [
  | inl n ↦
      ap (member k) (not_held-fresh held ids id n)
      ∙ (ap (λ b. id == k || b) (member-not_held held ids k) ∙ elim (Bool-cases (id == k)) [
        | inl e ↦
            rw (e, sym (ap (λ j. lookup j held) ((string_eq.same_iff id k).0 e)) ∙ n) (ground arith)
        | inr e ↦ ground arith
      ])
  | inr (o, s) ↦
      ap (member k) (not_held-old held ids id s)
      ∙ (member-not_held held ids k ∙ elim (Bool-cases (id == k)) [
        | inl e ↦
            rw (sym (ap (λ j. lookup j held) ((string_eq.same_iff id k).0 e)) ∙ s) (ground arith)
        | inr e ↦ ground arith
      ])
]

-- Every id is among the unique ones, or was met before.
member-unique :
    (seen ids : List String) (k : String)
    → member k ids ≡ true
    → (member k seen ≡ true) ⊎ (member k (unique seen ids) ≡ true)
unfolding unique member
member-unique seen [] k h = absurd cc
member-unique seen (id ∷ ids) k h = elim (Bool-cases (id == k)) [
  | inl e ↦
      let same = (string_eq.same_iff id k).0 e in
      elim (Bool-cases (member id seen)) [
        | inl m ↦ inl (subst (λ j. member j seen ≡ true) same m)
        | inr m ↦ inr (rw m (ground arith))
      ]
  | inr e ↦ elim (Bool-cases (member id seen)) [
    | inl m ↦ rw m (member-unique seen ids k (ground arith))
    | inr m ↦ rw m (elim (member-unique (id ∷ seen) ids k (ground arith)) [
      | inl before ↦ inl (ground arith)
      | inr after ↦ inr (rw after (ground arith))
    ])
  ]
]

own : (o owner : String) (rest : Bool) → (not (o == owner) || rest) ≡ false → o ≡ owner
own o owner rest h = ground (arith, string_eq.same_iff o owner)

pub foreign-here :
    (held : Held) (owner : String) (ids : List String) (id : String) {o : String}
    → lookup id held ≡ some o
    → is_foreign held owner (id ∷ ids) ≡ (not (o == owner) || is_foreign held owner ids)
unfolding is_foreign
foreign-here held owner ids id s = rw (is_foreign, s) refl

foreign-rest :
    (held : Held) (owner : String) (ids : List String) (id : String)
    → is_foreign held owner (id ∷ ids) ≡ false
    → is_foreign held owner ids ≡ false
unfolding is_foreign
foreign-rest held owner ids id f = elim (Option-cases (lookup id held)) [
  | inl n ↦ ground arith
  | inr (o, s) ↦ ground arith
]

pub foreign-owner :
    (held : Held) (owner : String) (ids : List String) (k : String) {o : String}
    → is_foreign held owner ids ≡ false
    → member k ids ≡ true
    → lookup k held ≡ some o
    → o ≡ owner
unfolding is_foreign member
foreign-owner held owner [] k f m s = absurd cc
foreign-owner held owner (id ∷ ids) k {o} f m s = elim (Bool-cases (id == k)) [
  | inl e ↦
      let found = ap (λ j. lookup j held) ((string_eq.same_iff id k).0 e) ∙ s in
      own o owner (is_foreign held owner ids) (sym (foreign-here held owner ids id found) ∙ f)
  | inr e ↦ foreign-owner held owner ids k (foreign-rest held owner ids id f) (ground arith) s
]

pub count-insert :
    (owner k v : String) (held : Held)
    → lookup k held ≡ none
    → count owner (insert k v held)
      ≡ (if v == owner then suc (count owner held) else count owner held)
unfolding count lookup insert
count-insert owner k v [] n = refl
count-insert owner k v ((e, o) ∷ held) n = elim (Bool-cases (e == k)) [
  | inl same ↦ absurd (ground arith)
  | inr other ↦
      let rest = count-insert owner k v held (ground arith) in rw (other, rest) (ground arith)
]

-- A write adds one entry at most, and none for another owner.
pub count-insert_le :
    (owner k v : String) (held : Held)
    → count owner (insert k v held)
      ≤ (if v == owner then suc (count owner held) else count owner held)
unfolding count insert
count-insert_le owner k v [] = ground arith
count-insert_le owner k v ((e, o) ∷ held) = elim (Bool-cases (e == k)) [
  | inl same ↦ rw same (ground arith)
  | inr other ↦ rw other (ground (arith, count-insert_le owner k v held))
]

pub count-delete_le :
    (owner k : String) (held : Held) → count owner (delete k held) ≤ count owner held
unfolding count delete
count-delete_le owner k [] = omega arith
count-delete_le owner k ((e, o) ∷ held) = ground (arith, count-delete_le owner k held)

pub count-set_all_le :
    (owner v : String) (ids : List String) (held : Held)
    → count owner (set_all v ids held)
      ≤ (if v == owner then count owner held + length ids else count owner held)
unfolding set_all
count-set_all_le owner v [] held = ground arith
count-set_all_le owner v (id ∷ ids) held =
    ground (arith, count-set_all_le owner v ids (insert id v held), count-insert_le owner id v held)

set_all-room :
    (owner : String) (ids : List String) (held : Held)
    → count owner (set_all owner ids held) ≤ count owner held + length ids
set_all-room owner ids held = ground (arith, count-set_all_le owner owner ids held, ==_refl owner)

no_member : (k : String) → ¬ (member k [] ≡ true)
unfolding member
no_member k h = absurd cc

-- A reservation that succeeds is atomic and within the limit: every id that it names is then held
-- by its owner, what was held stays with its owner, and the owner holds no more than the limit.
pub reserve-atomic :
    (held : Held) (owner : String) (ids : List String) (limit : ℕ) (after : Held)
    → reserve held owner ids limit ≡ ok (true, after)
    → ((k : String) → member k ids ≡ true → lookup k after ≡ some owner)
      × ((k o : String) → lookup k held ≡ some o → lookup k after ≡ some o)
      × (count owner after ≤ limit)
reserve-atomic held owner ids limit after h =
    let (f, room, e) = reserve-taken held owner ids limit h in
    let fresh = not_held held (unique [] ids) in
    (
      (λ k m.
          subst (λ c. lookup k c ≡ some owner) e
            (lookup-set_all owner fresh held k ∙ elim (Option-cases (lookup k held)) [
              | inl n ↦ elim (member-unique [] ids k m) [
                | inl before ↦ absurd (no_member k before)
                | inr new ↦ rw (member-not_held held (unique [] ids) k, n, new) refl
              ]
              | inr (o, s) ↦ rw (s, foreign-owner held owner ids k f m s) (ground arith)
            ])),
      (λ k o s.
          subst (λ c. lookup k c ≡ some o) e
            (lookup-set_all owner fresh held k
              ∙ rw (member-not_held held (unique [] ids) k, s) refl)),
      subst (λ c. count owner c ≤ limit) e (omega (arith, set_all-room owner fresh held)),
    )
