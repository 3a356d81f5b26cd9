-- ===== src/Tracker/Limits.antt =====
-- rewrite/internal/tracker/github_limits.go: what one process keeps of GitHub's answers, and when GitHub may be
-- asked again. A time counts nanoseconds from the zero time. The mutex makes each operation one step. An
-- answer is the headers that it is read for, already looked up, and its body; a body is its bytes.
pub mod Cache
pub mod Steps
pub mod Bounded
pub mod Recalled
pub mod Waits
use Prim.Native.Nat.{◌^◌, min}
use lass_das.Base.{
  ℕ, zero, suc, ◌+◌, ◌-◌, ◌*◌, String, ◌==◌, contains, Bool, true, false, not, ◌&&◌, ◌||◌, Option,
  none, some, List, [], ◌∷◌, ◌++◌, if◌then◌else◌, leb, ltb, length, max, ℤ, pos, negsuc, trim_space,
  lookup, has_key,
}
use lass_das.Chain.Types.{Time}
use lass_das.Tracker.Numbers.{parse_int}

pub record KeptAnswer : Type 0 where
  pub etag : String
  pub content : List ℕ
  pub header : List (String × String)

-- `kept` is the map, by its first entry for an address.
pub record Shared : Type 0 where
  pub kept : List (String × KeptAnswer)
  pub order : List String
  pub size : ℕ
  pub quiet : Time
  pub strikes : ℕ

abbrev pub kept_item : ℕ
kept_item = 8388608

abbrev pub kept_size : ℕ
kept_size = 67108864

abbrev pub kept_count : ℕ
kept_count = 512

abbrev pub second : ℕ
second = 1000000000

abbrev pub longest_wait : ℕ
longest_wait = 3600 * second

-- `closedUntil`, 0 where GitHub may be asked now.
unfoldable pub closed_until : Time → Shared → Time
closed_until now s = if ltb now s.quiet then s.quiet else 0

-- What learn reads of an answer: its status, three headers and the body in lower case.
pub record Answer : Type 0 where
  pub status : ℕ
  pub remaining : String
  pub retry_after : String
  pub reset : String
  pub text : String

unfoldable pub is_spent : Answer → Bool
is_spent a = trim_space a.remaining == "0"

unfoldable pub is_limited : Answer → Bool
unfolding is_spent
is_limited a =
    is_spent a
    || ((leb 429 a.status && leb a.status 429)
        || ((leb 403 a.status && leb a.status 403)
            && (contains a.text "rate limit" || contains a.text "abuse detection")))

-- The seconds that Retry-After gives, as the time until which they last, or the zero time.
unfoldable pub retry_until : Option ℤ → Time → Time
retry_until none now = 0
retry_until (some (negsuc n)) now = 0
retry_until (some (pos n)) now = if ltb 0 n then now + min n 3600 * second else 0

-- Seconds from the zero time to the Unix epoch.
abbrev pub unix_epoch : ℕ
unix_epoch = 62135596800

-- `time.Unix(epoch, 0)`, whose seconds wrap; a time before the zero time is as good as that one here.
unfoldable pub unix_time : ℤ → Time
unix_time (pos n) = if ltb (n + unix_epoch) (2 ^ 63) then (n + unix_epoch) * second else 0
unix_time (negsuc n) = (unix_epoch - suc n) * second

unfoldable pub reset_until : Answer → Time → Time
unfolding is_spent unix_time
reset_until a until = elim (parse_int (trim_space a.reset)) [
  | none ↦ until
  | some epoch ↦ if is_spent a && ltb until (unix_time epoch) then unix_time epoch else until
]

-- A minute that doubles, an hour at most.
unfoldable pub strike_wait : ℕ → ℕ
strike_wait strikes = min (60 * second * 2 ^ min (strikes - 1) 6) longest_wait

-- A limit: how long it lasts, and whether it said so.
unfoldable pub limit_until : Time → Time → ℕ → Time
unfolding strike_wait
limit_until until now strikes =
    min (if ltb now until then until else now + strike_wait (suc strikes)) (now + longest_wait)

unfoldable pub learn_limited : Time → Time → Shared → Shared
unfolding limit_until
learn_limited until now s = record s {
  strikes = if ltb now until then s.strikes else suc s.strikes;
  quiet = max s.quiet (limit_until until now s.strikes);
}

unfoldable pub forgive : Answer → Shared → Shared
forgive a s =
    if ltb a.status 300 || (leb 304 a.status && leb a.status 304)
    then record s { strikes = 0 }
    else s

-- `learn`.
unfoldable pub learn : Answer → Time → Shared → Shared
unfolding forgive is_limited retry_until reset_until learn_limited
learn a now s =
    let until = retry_until (parse_int (trim_space a.retry_after)) now in
    if not (is_limited a) && ltb a.status 400
    then forgive a s
    else if is_limited a
    then learn_limited (reset_until a until) now (forgive a s)
    else record (forgive a s) { quiet = max (forgive a s).quiet until }

-- `recall`.
unfoldable pub recall : String → Shared → Option KeptAnswer
recall address s = lookup address s.kept

-- `delete(kept, address)`.
unfoldable pub delete_kept : String → List (String × KeptAnswer) → List (String × KeptAnswer)
delete_kept address [] = []
delete_kept address ((other, a) ∷ kept) =
    let rest = delete_kept address kept in if other == address then rest else (other, a) ∷ rest

-- The first place in the order is taken out.
unfoldable pub remove_first : String → List String → List String
remove_first address [] = []
remove_first address (other ∷ order) =
    let rest = remove_first address order in if other == address then order else other ∷ rest

unfoldable pub content_size : Option KeptAnswer → ℕ
content_size none = 0
content_size (some a) = length a.content

unfoldable pub forget_found : String → Option KeptAnswer → Shared → Shared
unfolding delete_kept remove_first content_size
forget_found address none s = s
forget_found address (some earlier) s = record s {
  size = s.size - content_size (some earlier);
  kept = delete_kept address s.kept;
  order = remove_first address s.order;
}

-- An earlier answer from the address is given up.
unfoldable pub forget : String → Shared → Shared
unfolding forget_found recall
forget address s = forget_found address (recall address s) s

-- The loop that gives up the oldest answers, over the order.
unfoldable pub evict : List String → List (String × KeptAnswer) → ℕ → Shared → Shared
unfolding content_size delete_kept
evict [] kept size s = record s { order = []; kept = kept; size = size }
evict (oldest ∷ order) kept size s =
    let rest = evict order (delete_kept oldest kept) (size - content_size (lookup oldest kept)) s in
    if ltb kept_count (length (oldest ∷ order)) || ltb kept_size size
    then rest
    else record s { order = oldest ∷ order; kept = kept; size = size }

unfoldable pub add_kept : String → KeptAnswer → Shared → Shared
unfolding evict
add_kept address a s =
    evict (s.order ++ address ∷ []) ((address, a) ∷ s.kept) (s.size + length a.content) s

-- `keep`.
unfoldable pub keep : String → KeptAnswer → Shared → Shared
unfolding forget add_kept
keep address a s =
    if (a.etag == "") || ltb kept_item (length a.content)
    then forget address s
    else add_kept address a (forget address s)
