-- ===== src/Tests/TerminalTest.antt =====
-- Runs of the terminal's buffer and sanitizer.
use zch_coding_agent.Base.{ℕ, ◌≡◌, refl, true, some, List, [], ◌∷◌, arith, nat_eq, string_eq}
use zch_coding_agent.Base.Preds.{All}
use zch_coding_agent.Terminal.ByteRing.{ByteRingBuffer, create, append, snapshot}
use zch_coding_agent.Terminal.ByteRing.Stream as Stream
use zch_coding_agent.Terminal.ByteRing.Stream.{
  Holds, IsTail, append_all, create-append_all-Holds, create-append_all-IsTail, snapshot_lem,
}
use zch_coding_agent.Terminal.Ansi.{text, csi, push, is_csi_final}
use zch_coding_agent.Terminal.Ansi.Chunks.{IsVisible, push_all, push-IsVisible}
use zch_coding_agent.Terminal.Ansi.Screen.{
  Shows, nothing, char, sequence, csi_seven, final, push-Shows, push_all-Shows,
}

abbrev chunks : List (List ℕ)
chunks = (1 ∷ 2 ∷ []) ∷ (3 ∷ 4 ∷ 5 ∷ []) ∷ []

-- A buffer of four bytes after five bytes.
abbrev ring : ByteRingBuffer
ring = append_all chunks (create 4)

abbrev bytes : List ℕ → List ℕ
bytes b = b

ring-Holds : Holds (1 ∷ 2 ∷ 3 ∷ 4 ∷ 5 ∷ []) ring
ring-Holds = create-append_all-Holds 4 chunks

create-append_all-IsTail_example : IsTail 4 (Stream.concat chunks) (append_all chunks (create 4))
create-append_all-IsTail_example = create-append_all-IsTail 4 chunks

snapshot_lem_example :
    let v = snapshot bytes (some 0) ring in
    (v.content ≡ 2 ∷ 3 ∷ 4 ∷ 5 ∷ []) × (v.start_cursor ≡ 1) × (v.cursor ≡ 5) × (v.truncated ≡ true)
unfolding snapshot append create
snapshot_lem_example = snapshot_lem bytes 0 (1 ∷ 2 ∷ 3 ∷ 4 ∷ 5 ∷ []) ring ring-Holds

-- `ESC [ 3 1 m` and an `A`.
red-Shows : Shows (0x1b ∷ b'[' ∷ b'3' ∷ b'1' ∷ b'm' ∷ b'A' ∷ []) (b'A' ∷ [])
unfolding is_csi_final
red-Shows =
    sequence (b'3' ∷ b'1' ∷ []) csi_seven (refl, (refl, tt)) (final b'm' refl)
      (char b'A' (ground arith) nothing)

push-Shows_example : push text (0x1b ∷ b'[' ∷ b'3' ∷ b'1' ∷ b'm' ∷ b'A' ∷ []) ≡ (text, b'A' ∷ [])
push-Shows_example = push-Shows red-Shows

-- The sequence is cut in its middle.
push_all-Shows_example :
    push_all text ((0x1b ∷ b'[' ∷ b'3' ∷ []) ∷ (b'1' ∷ b'm' ∷ b'A' ∷ []) ∷ []) ≡ (text, b'A' ∷ [])
push_all-Shows_example =
    push_all-Shows ((0x1b ∷ b'[' ∷ b'3' ∷ []) ∷ (b'1' ∷ b'm' ∷ b'A' ∷ []) ∷ []) red-Shows

push-IsVisible_example : All IsVisible (push csi (b'm' ∷ b'A' ∷ 0x9b ∷ [])).1
push-IsVisible_example = push-IsVisible csi (b'm' ∷ b'A' ∷ 0x9b ∷ [])
