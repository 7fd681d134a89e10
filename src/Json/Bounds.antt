-- ===== src/Json/Bounds.antt =====
-- What `visit` accepts, against measures of the value that are defined without it.
use zch_coding_agent.Base.{
  throw_if, ◌>>◌, throw_if-eq-ok, ℕ, suc, ◌+◌, ◌≤◌, ◌≡◌, ap, ◌∙◌, ◌↔◌, false, arith, ltb, length,
  nat_eq, string_eq, ok, ◌>>=◌, ◌>>◌, throw_if, >>=-eq-ok,
}
use zch_coding_agent.Json.{
  JsonValue, null, boolean, number, non_finite, text, array, object, JsonItems, no_items, item,
  JsonFields, no_fields, field, length_items, length_fields, JsonValueLimits, key_length, size,
  visit, visit_items, visit_fields, assert_bounded_json_value,
}

-- Values at any depth, the value itself among them.
mutual
  pub nodes : JsonValue → ℕ
  nodes (array vs) = suc (nodes_items vs)
  nodes (object fs) = suc (nodes_fields fs)
  nodes null = 1
  nodes (boolean b) = 1
  nodes (number s) = 1
  nodes non_finite = 1
  nodes (text s) = 1

  pub nodes_items : JsonItems → ℕ
  nodes_items no_items = 0
  nodes_items (item v vs) = nodes v + nodes_items vs

  pub nodes_fields : JsonFields → ℕ
  nodes_fields no_fields = 0
  nodes_fields (field k v fs) = nodes v + nodes_fields fs

-- Every value lies at depth `d` or less below, and every array, object, text and key is within
-- the limits; numbers are finite.
mutual
  pub Fits : JsonValueLimits → ℕ → JsonValue → Type 0
  Fits l d (array vs) =
      (d ≤ l.max_depth) × (length_items vs ≤ l.max_array_length) × FitsItems l (suc d) vs
  Fits l d (object fs) =
      (d ≤ l.max_depth) × (length_fields fs ≤ l.max_object_keys) × FitsFields l (suc d) fs
  Fits l d (text s) = (d ≤ l.max_depth) × (length s ≤ l.max_string_length)
  Fits l d non_finite = ⊥
  Fits l d null = d ≤ l.max_depth
  Fits l d (boolean b) = d ≤ l.max_depth
  Fits l d (number s) = d ≤ l.max_depth

  pub FitsItems : JsonValueLimits → ℕ → JsonItems → Type 0
  FitsItems l d no_items = Unit
  FitsItems l d (item v vs) = Fits l d v × FitsItems l d vs

  pub FitsFields : JsonValueLimits → ℕ → JsonFields → Type 0
  FitsFields l d no_fields = Unit
  FitsFields l d (field k v fs) = (length k ≤ l.max_string_length) × Fits l d v × FitsFields l d fs

mutual
  unfolding visit visit_items visit_fields nodes nodes_items nodes_fields Fits FitsItems FitsFields

  visit_sound :
      (l : JsonValueLimits) (v : JsonValue) (d n m : ℕ)
      → visit l v d n ≡ ok m
      → Fits l d v × (m ≡ n + nodes v) × (m ≤ l.max_nodes)
  visit_sound l null d n m h = ground arith
  visit_sound l (boolean b) d n m h = ground arith
  visit_sound l (number s) d n m h = ground arith
  visit_sound l non_finite d n m h = ground arith
  visit_sound l (text s) d n m h = ground arith
  visit_sound l (array vs) d n m h = ground (arith, visit_items_sound l vs (suc d) (suc n) m)
  visit_sound l (object fs) d n m h = ground (arith, visit_fields_sound l fs (suc d) (suc n) m)

  visit_items_sound :
      (l : JsonValueLimits) (vs : JsonItems) (d n m : ℕ)
      → visit_items l vs d n ≡ ok m
      → n ≤ l.max_nodes
      → FitsItems l d vs × (m ≡ n + nodes_items vs) × (m ≤ l.max_nodes)
  visit_items_sound l no_items d n m h b = ground arith
  visit_items_sound l (item v vs) d n m h b =
      let (k, e, h') = >>=-eq-ok (visit l v d n) (visit_items l vs d) h in
      ground (arith, visit_sound l v d n k e, visit_items_sound l vs d k m h')

  visit_fields_sound :
      (l : JsonValueLimits) (fs : JsonFields) (d n m : ℕ)
      → visit_fields l fs d n ≡ ok m
      → n ≤ l.max_nodes
      → FitsFields l d fs × (m ≡ n + nodes_fields fs) × (m ≤ l.max_nodes)
  visit_fields_sound l no_fields d n m h b = ground arith
  visit_fields_sound l (field k v fs) d n m h b =
      let (short, rest) =
        throw_if-eq-ok {A = ℕ} (ltb l.max_string_length (length k)) key_length
          (visit l v d n >>= visit_fields l fs d) h in
      let (j, e, h') = >>=-eq-ok (visit l v d n) (visit_fields l fs d) rest in
      ground (arith, visit_sound l v d n j e, visit_fields_sound l fs d j m h')

mutual
  unfolding visit visit_items visit_fields nodes nodes_items nodes_fields Fits FitsItems FitsFields

  visit_complete :
      (l : JsonValueLimits) (v : JsonValue) (d n : ℕ)
      → Fits l d v
      → n + nodes v ≤ l.max_nodes
      → visit l v d n ≡ ok (n + nodes v)
  visit_complete l null d n f b = ground arith
  visit_complete l (boolean t) d n f b = ground arith
  visit_complete l (number s) d n f b = ground arith
  visit_complete l non_finite d n f b = absurd f
  visit_complete l (text s) d n f b = ground arith
  visit_complete l (array vs) d n f b =
      ground (arith, visit_items_complete l vs (suc d) (suc n) f.2)
  visit_complete l (object fs) d n f b =
      ground (arith, visit_fields_complete l fs (suc d) (suc n) f.2)

  visit_items_complete :
      (l : JsonValueLimits) (vs : JsonItems) (d n : ℕ)
      → FitsItems l d vs
      → n + nodes_items vs ≤ l.max_nodes
      → visit_items l vs d n ≡ ok (n + nodes_items vs)
  visit_items_complete l no_items d n f b = ground arith
  visit_items_complete l (item v vs) d n f b =
      rw (visit_complete l v d n f.0 (omega arith))
        (visit_items_complete l vs d (n + nodes v) f.1 (omega arith) ∙ ap ok (omega arith))

  visit_fields_complete :
      (l : JsonValueLimits) (fs : JsonFields) (d n : ℕ)
      → FitsFields l d fs
      → n + nodes_fields fs ≤ l.max_nodes
      → visit_fields l fs d n ≡ ok (n + nodes_fields fs)
  visit_fields_complete l no_fields d n f b = ground arith
  visit_fields_complete l (field k v fs) d n f b =
      let short : ltb l.max_string_length (length k) ≡ false = ground arith in
      rw (short, visit_complete l v d n f.1 (omega arith))
        (visit_fields_complete l fs d (n + nodes v) f.2 (omega arith) ∙ ap ok (omega arith))

-- A value passes exactly when every value in it lies at the greatest depth or above, every array,
-- object, text and key is within its limit, every number is finite, there are no more values than
-- the limit on nodes, and its serialisation has no more bytes than the limit.
pub assert_bounded_json_value_iff :
    (json_bytes : JsonValue → ℕ) (l : JsonValueLimits) (v : JsonValue)
    → (assert_bounded_json_value json_bytes l v ≡ ok tt)
      ↔ (Fits l 0 v × (nodes v ≤ l.max_nodes) × (json_bytes v ≤ l.max_bytes))
unfolding assert_bounded_json_value
assert_bounded_json_value_iff json_bytes l v = (
  λ h.
      let (n, e, rest) =
        >>=-eq-ok (visit l v 0 0) (λ _. throw_if (ltb l.max_bytes (json_bytes v)) size >> ok tt)
          h in
      let (f, count, within) = visit_sound l v 0 0 n e in (f, omega arith, ground arith),
  λ (f, n, b). rw (visit_complete l v 0 0 f (omega arith)) (ground arith),
)
