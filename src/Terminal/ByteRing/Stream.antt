-- ===== src/Terminal/ByteRing/Stream.antt =====
-- The ring against the whole stream: what it holds after any chunks, and what a reader gets.
use zch_coding_agent.Base.{
  ℕ, ◌+◌, ◌-◌, ◌≤◌, max, min, ◌≡◌, refl, sym, ap, ◌∙◌, subst, take, take-append-drop, inl, inr,
  false, List, [], ◌∷◌, ◌++◌, append-nil, append_assoc, length, length-append, drop, length-drop,
  none, some, arith, ltb, leb, Bool-cases, drop_eq, drop-append_left, drop-append_right, drop-drop,
  drop_all, drop-min,
}
use zch_coding_agent.Terminal.ByteRing.{ByteRingBuffer, create, append, snapshot, keep_last}

-- The ring holds the end of the stream `s`.
pub record Holds (s : List ℕ) (r : ByteRingBuffer) : Type 0 where
  pub room : 1 ≤ r.capacity
  pub counted : r.total_bytes ≡ length s
  pub suffix : r.buffer ≡ keep_last r.capacity s

keep_last_short : (n : ℕ) (s : List ℕ) → length s ≤ n → keep_last n s ≡ s
keep_last_short n s h = drop_eq {n = length s - n} {m = 0} s (omega arith)

keep_last-append_long : (n : ℕ) (s c : List ℕ) → n ≤ length c → keep_last n (s ++ c) ≡ keep_last n c
keep_last-append_long n s c h =
    drop-append_right (length (s ++ c) - n) s c (omega (arith, length-append s c))
    ∙ drop_eq c (omega (arith, length-append s c))

length-keep_last : (n : ℕ) (s : List ℕ) → length (keep_last n s) ≡ min n (length s)
length-keep_last n s = omega (arith, length-drop (length s - n) s)

keep_last-append : (n : ℕ) (s c : List ℕ) → keep_last n (keep_last n s ++ c) ≡ keep_last n (s ++ c)
keep_last-append n s c =
    let e : keep_last n s ++ c ≡ drop (length s - n) (s ++ c) =
      sym (drop-append_left (length s - n) s c (omega arith)) in
    ap (keep_last n) e
    ∙ drop-drop (length (drop (length s - n) (s ++ c)) - n) (length s - n) (s ++ c)
    ∙ drop_eq (s ++ c) (omega (arith, length-append s c, length-drop (length s - n) (s ++ c)))

create-Holds : (capacity : ℕ) → Holds [] (create capacity)
unfolding create
create-Holds capacity = record {
  room = omega arith;
  counted = refl;
  suffix = sym (drop_all (0 - max 1 capacity) [] (omega arith));
}

module _ (s c : List ℕ) (r : ByteRingBuffer) (h : Holds s r) where
  append_suffix : (append c r).buffer ≡ keep_last r.capacity (s ++ c)
  unfolding append
  append_suffix = elim (Bool-cases (leb r.capacity (length c))) [
    | inl long ↦ rw long (sym (keep_last-append_long r.capacity s c (ground arith)))
    | inr short ↦ elim (Bool-cases (ltb r.capacity (length (r.buffer ++ c)))) [
      | inl over ↦ rw (short, over) (rw h.suffix (keep_last-append r.capacity s c))
      | inr fits ↦
          rw (short, fits)
            (sym (keep_last_short r.capacity (r.buffer ++ c) (ground arith))
              ∙ rw h.suffix (keep_last-append r.capacity s c))
    ]
  ]

  append-capacity : (append c r).capacity ≡ r.capacity
  unfolding append
  append-capacity = ground arith

  append-total_bytes : (append c r).total_bytes ≡ r.total_bytes + length c
  unfolding append
  append-total_bytes = ground arith

  append-Holds : Holds (s ++ c) (append c r)
  append-Holds = record {
    room = rw append-capacity h.room;
    counted = omega (arith, append-total_bytes, length-append s c, h.counted);
    suffix = rw append-capacity append_suffix;
  }

abbrev pub concat : List (List ℕ) → List ℕ
concat [] = []
concat (c ∷ cs) = c ++ concat cs

abbrev pub append_all : List (List ℕ) → ByteRingBuffer → ByteRingBuffer
append_all [] r = r
append_all (c ∷ cs) r = append_all cs (append c r)

append_all-Holds :
    (cs : List (List ℕ)) (s : List ℕ) (r : ByteRingBuffer)
    → Holds s r
    → Holds (s ++ concat cs) (append_all cs r)
append_all-Holds [] s r h = rw append-nil h
append_all-Holds (c ∷ cs) s r h =
    rw (← append_assoc s c (concat cs))
      (append_all-Holds cs (s ++ c) (append c r) (append-Holds s c r h))

pub create-append_all-Holds :
    (capacity : ℕ) (cs : List (List ℕ)) → Holds (concat cs) (append_all cs (create capacity))
create-append_all-Holds capacity cs =
    append_all-Holds cs [] (create capacity) (create-Holds capacity)

append_all-capacity :
    (cs : List (List ℕ)) (s : List ℕ) (r : ByteRingBuffer)
    → Holds s r
    → (append_all cs r).capacity ≡ r.capacity
append_all-capacity [] s r h = refl
append_all-capacity (c ∷ cs) s r h =
    append_all-capacity cs (s ++ c) (append c r) (append-Holds s c r h) ∙ append-capacity s c r h

-- The end of the stream, of `capacity` bytes or the whole of a shorter one, with the stream's length.
abbrev pub IsTail : ℕ → List ℕ → ByteRingBuffer → Type 0
IsTail capacity s r =
    ((gone : List ℕ) × (s ≡ gone ++ r.buffer))
    × (length r.buffer ≡ min capacity (length s))
    × (r.total_bytes ≡ length s)

Holds-IsTail : (s : List ℕ) (r : ByteRingBuffer) → Holds s r → IsTail r.capacity s r
Holds-IsTail s r h = (
  (
    take (length s - r.capacity) s,
    sym (
        ap (λ b. take (length s - r.capacity) s ++ b) h.suffix
        ∙ take-append-drop (length s - r.capacity) s),
  ),
  ap length h.suffix ∙ length-keep_last r.capacity s,
  h.counted,
)

-- After a new buffer has been given any chunks, however they cut the stream, it holds the end of the
-- whole stream, as many bytes as the capacity that it was created with, one where that is 0, or all
-- bytes of a shorter stream; and it counts all bytes of the stream.
pub create-append_all-IsTail :
    (capacity : ℕ) (cs : List (List ℕ))
    → IsTail (max 1 capacity) (concat cs) (append_all cs (create capacity))
unfolding create
create-append_all-IsTail capacity cs =
    let h = create-append_all-Holds capacity cs in
    let kept : (append_all cs (create capacity)).capacity ≡ max 1 capacity =
      append_all-capacity cs [] (create capacity) (create-Holds capacity) in
    subst (λ n. IsTail n (concat cs) (append_all cs (create capacity))) kept
      (Holds-IsTail (concat cs) (append_all cs (create capacity)) h)

module _ (s : List ℕ) (r : ByteRingBuffer) (h : Holds s r) where
  Holds-oldest : r.total_bytes - length r.buffer ≡ length s - r.capacity
  Holds-oldest = omega (arith, ap length h.suffix, length-keep_last r.capacity s, h.counted)

  drop-buffer :
      (n : ℕ) → drop (min (length r.buffer) n) r.buffer ≡ drop (n + (length s - r.capacity)) s
  drop-buffer n = drop-min n r.buffer ∙ ap (drop n) h.suffix ∙ drop-drop n (length s - r.capacity) s

-- A reader that gives a cursor gets the stream from there on, or from the oldest byte that is
-- still held where the cursor is older, and is told so in that case and no other; the snapshot's
-- cursor is the end of the stream.
pub snapshot_lem {ℓ} :
    {Text : Type ℓ} (to_text : List ℕ → Text) (q : ℕ) (s : List ℕ) (r : ByteRingBuffer)
    → Holds s r
    → let v = snapshot to_text (some q) r in
      let oldest = length s - r.capacity in
      (v.content ≡ to_text (drop (max q oldest) s))
      × (v.start_cursor ≡ oldest)
      × (v.cursor ≡ length s)
      × (v.truncated ≡ ltb q oldest)
unfolding snapshot
snapshot_lem to_text q s r h =
    let from = drop-buffer s r h (
      max 0
        (max (r.total_bytes - length r.buffer) (max 0 q) - (r.total_bytes - length r.buffer))) in
    (
      ap to_text (from ∙ drop_eq s (omega (arith, Holds-oldest s r h))),
      Holds-oldest s r h,
      h.counted,
      ground (arith, Holds-oldest s r h),
    )

-- No byte is lost or repeated for a reader that comes back with the cursor of its last snapshot
-- after a chunk of no more than the capacity: it gets that chunk, and is not told of a loss.
pub snapshot-append {ℓ} :
    {Text : Type ℓ} (to_text : List ℕ → Text) (s c : List ℕ) (r : ByteRingBuffer)
    → Holds s r
    → length c ≤ r.capacity
    → let last = (snapshot to_text none r).cursor in
      let v = snapshot to_text (some last) (append c r) in
      (v.content ≡ to_text c) × (v.truncated ≡ false)
unfolding snapshot
snapshot-append to_text s c r h fits =
    let (content, _, _, truncated) =
      snapshot_lem to_text r.total_bytes (s ++ c) (append c r) (append-Holds s c r h) in
    let whole = length-append s c in
    let kept = append-capacity s c r h in
    (
      content
          ∙ ap to_text (
              drop_eq {m = length s} (s ++ c) (omega (arith, whole, kept, h.counted))
              ∙ drop-append_right (length s) s c (omega arith)
              ∙ drop_eq {m = 0} c (omega arith)),
      truncated ∙ ground (arith, whole, kept, h.counted),
    )
