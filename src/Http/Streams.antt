-- ===== src/Http/Streams.antt =====
-- std::istream as common_utils uses it: a text, a position, and whether an operation has failed.
use iexapitest.Base.{Bool, List, [], drop, if◌then◌else◌, leb, length, take, true, ℕ, ◌+◌, ◌-◌, ◌^◌}

pub record Stream : Type 0 where
  pub content : List ℕ
  pub pos : ℕ
  pub failed : Bool

-- size_t
abbrev pub size_mod : ℕ
size_mod = 2 ^ 64

-- `seekg(0, end)` and `seekg(0, beg)`: nothing happens on a failed stream.
unfoldable pub seek_end : Stream → Stream
seek_end s = if s.failed then s else record s { pos = length s.content }

unfoldable pub seek_begin : Stream → Stream
seek_begin s = if s.failed then s else record s { pos = 0 }

-- `static_cast<size_t>(tellg())`: -1 on a failed stream
unfoldable pub tell : Stream → ℕ
tell s = if s.failed then size_mod - 1 else s.pos

-- `read(buffer, n)`: the bytes that arrive; a short read fails the stream.
unfoldable pub read : ℕ → Stream → List ℕ × Stream
read n s =
    let rest = drop s.pos s.content in
    if s.failed
    then ([], s)
    else if leb n (length rest)
    then (take n rest, record s { pos = s.pos + n })
    else (rest, record s { pos = length s.content; failed = true })
