-- ===== src/Engine/Notices/Kinds.antt =====
-- rewrite/cmd/engine/notice.go, the queue's record of when each kind of notice began. A time of the map that is
-- zero counts as missing.
use Prim.Native.Nat.{◌%◌}
use lass_das.Base.{
  ◌-◌, String, Option, none, some, List, [], ◌∷◌, if◌then◌else◌, ltb, lookup_or, contains_text,
}
use lass_das.Chain.Types.{Time}
use lass_das.Engine.Pause.{Write, stored, written, lost, is_stored}
use lass_das.Engine.Notices.{second}

abbrev pub NoticeKinds : Type 0
NoticeKinds = List (String × Time)

-- `kindStart`: whole seconds.
unfoldable pub kind_start : Time → Time
kind_start now = now - now % second

unfoldable pub put_kinds : Write → NoticeKinds → NoticeKinds → NoticeKinds
put_kinds stored new old = new
put_kinds written new old = new
put_kinds lost new old = old

-- `kindSince`: the record behind it, and the start, `none` where the record could not be written.
unfoldable pub kind_since : Write → String → Time → NoticeKinds → NoticeKinds × Option Time
unfolding kind_start put_kinds is_stored
kind_since w kind now kinds =
    let new = (kind, kind_start now) ∷ kinds in
    if ltb 0 (lookup_or 0 kind kinds)
    then (kinds, some (lookup_or 0 kind kinds))
    else (put_kinds w new kinds, if is_stored w then some (kind_start now) else none)

-- `startNoticeKinds`: the kinds that are posted and have no start begin now, and the others are dropped.
unfoldable pub start_kinds : Time → List String → NoticeKinds → NoticeKinds
unfolding kind_start
start_kinds now [] kinds = kinds
start_kinds now (kind ∷ postable) kinds =
    start_kinds now postable
      (if ltb 0 (lookup_or 0 kind kinds) then kinds else (kind, kind_start now) ∷ kinds)

unfoldable pub drop_kinds : List String → NoticeKinds → NoticeKinds
drop_kinds postable [] = []
drop_kinds postable ((kind, since) ∷ kinds) =
    let rest = drop_kinds postable kinds in
    if contains_text kind postable then (kind, since) ∷ rest else rest

unfoldable pub start_notice_kinds : Write → Time → List String → NoticeKinds → NoticeKinds
unfolding start_kinds drop_kinds put_kinds
start_notice_kinds w now postable kinds =
    put_kinds w (drop_kinds postable (start_kinds now postable kinds)) kinds
