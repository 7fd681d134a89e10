-- ===== src/Terminal/ByteRing.antt =====
-- electron/terminal/byte-ring-buffer.ts: the last `capacity` bytes of a stream, with its cursor.
-- A byte is a number. `Buffer.toString('utf8')` is the platform's, and a parameter of `snapshot`.
pub mod Stream
use zch_coding_agent.Base.{
  ℕ, ◌+◌, ◌-◌, max, min, Bool, List, [], ◌++◌, length, drop, Option, none, some, ltb, leb,
  if◌then◌else◌,
}

-- `readonly #capacity`, `#buffer` and `#totalBytes`.
pub record ByteRingBuffer : Type 0 where
  pub capacity : ℕ
  pub buffer : List ℕ
  pub total_bytes : ℕ

pub record ByteRingSnapshot {ℓ} (Text : Type ℓ) : Type ℓ where
  pub content : Text
  pub start_cursor : ℕ
  pub cursor : ℕ
  pub total_bytes : ℕ
  pub retained_bytes : ℕ
  pub truncated : Bool

-- The constructor.
unfoldable pub create : ℕ → ByteRingBuffer
create capacity = record { capacity = max 1 capacity; buffer = []; total_bytes = 0 }

-- `subarray(byteLength - capacity)`: the last `capacity` bytes of a longer buffer.
abbrev pub keep_last : ℕ → List ℕ → List ℕ
keep_last capacity bytes = drop (length bytes - capacity) bytes

unfoldable pub append : List ℕ → ByteRingBuffer → ByteRingBuffer
append chunk r =
    if leb r.capacity (length chunk)
    then record r {
      buffer = keep_last r.capacity chunk;
      total_bytes = r.total_bytes + length chunk;
    }
    else record r {
      buffer =
          if ltb r.capacity (length (r.buffer ++ chunk))
          then keep_last r.capacity (r.buffer ++ chunk)
          else r.buffer ++ chunk;
      total_bytes = r.total_bytes + length chunk;
    }

-- The cursor that the caller asked for: `Math.max(0, cursor ?? startCursor)`.
abbrev pub requested_cursor : Option ℕ → ℕ → ℕ
requested_cursor none start = max 0 start
requested_cursor (some cursor) start = max 0 cursor

unfoldable pub snapshot {ℓ} :
    {Text : Type ℓ} → (List ℕ → Text) → Option ℕ → ByteRingBuffer → ByteRingSnapshot Text
snapshot to_text cursor r =
    let start = r.total_bytes - length r.buffer in
    let requested = requested_cursor cursor start in
    let effective = max start requested in
    let offset = min (length r.buffer) (max 0 (effective - start)) in
    record {
      content = to_text (drop offset r.buffer);
      start_cursor = start;
      cursor = r.total_bytes;
      total_bytes = r.total_bytes;
      retained_bytes = length r.buffer;
      truncated = ltb requested start;
    }

pub clear : ByteRingBuffer → ByteRingBuffer
clear r = record r { buffer = []; total_bytes = 0 }
