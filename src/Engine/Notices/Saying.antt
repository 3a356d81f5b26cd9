-- ===== src/Engine/Notices/Saying.antt =====
-- rewrite/cmd/engine/notice.go, sayAs, say, post and flush.
use lass_das.Base.{
  ℕ, String, ◌==◌, Bool, true, false, not, ◌&&◌, Option, none, some, [], ◌∷◌, ◌++◌, if◌then◌else◌,
  leb, ltb, length, get_elem?, pos,
}
use lass_das.Chain.Types.{Time}
use lass_das.Engine.Pause.{Write, is_stored}
use lass_das.Engine.Notices.{NoticeRecord, NoticeLog, pending_notice, once_notice, notice_due}
use lass_das.Engine.Notices.Settle.{Site, Answers, save_log}
use lass_das.Engine.Notices.Rewrite.{settle}
use lass_das.Engine.Notices.Kinds.{NoticeKinds, kind_since}

-- `noticeRecord{}`.
abbrev pub no_notice_record : NoticeRecord
no_notice_record = record {
  kind = "";
  text = "";
  written_at = 0;
  posted_at = none;
  predates = false;
  obsolete = false;
  models = "";
  event = "";
  comment_id = pos 0;
  edits = pos 0;
  also = [];
}

-- A notice to be said: its kind and occurrence, when that was, and what is composed over the log.
pub record Notice : Type 0 where
  pub approval : Bool
  pub record_only : Bool
  pub kind : String
  pub event : String
  pub at : Time
  pub compose : NoticeLog → Time → NoticeRecord × Bool

-- What the calls of one sayAs meet: those that settle an earlier notice, and its own.
pub record Saying : Type 0 where
  pub locked : Bool
  pub earlier : Answers
  pub own : Answers
  pub kinds_write : Write
  pub log_write : Write
  pub now : Time

unfoldable pub is_same : Notice → Option NoticeRecord → Bool
is_same n none = false
is_same n (some r) = (r.kind == n.kind) && (r.event == n.event)

-- The record that settles a kind whose event was before the kind began.
abbrev pub predating : Notice → NoticeRecord → Time → NoticeRecord
predating n r now = record no_notice_record {
  kind = n.kind;
  written_at = now;
  predates = true;
  models = r.models;
  event = r.event;
}

unfoldable pub record_and_submit : Notice → Saying → NoticeRecord → Site → Site × Bool
unfolding save_log is_stored settle
record_and_submit n w r site =
    let site' = save_log w.log_write (site.log ++ record r { written_at = w.now } ∷ []) site in
    if not (is_stored w.log_write)
    then (site', false)
    else if n.record_only
    then (site', true)
    else settle n.approval w.own (length site.log) true site'

-- Only capacity is a current condition; other undated events stay old.
unfoldable pub event_time : Notice → Time → Time
event_time n now = if (n.kind == "queue-disk-usage") && leb n.at 0 then now else n.at

unfoldable pub say_since : Notice → Saying → NoticeRecord → Option Time → Site → Site × Bool
unfolding event_time record_and_submit save_log is_stored once_notice
say_since n w r none site = (site, false)
say_since n w r (some since) site =
    if not (ltb (event_time n w.now) since)
    then record_and_submit n w r site
    else if not (once_notice n.kind) && (r.models == "")
    then (site, true)
    else (save_log w.log_write (site.log ++ predating n r w.now ∷ []) site, is_stored w.log_write)

-- The queue's record stands beside the files of the request.
unfoldable pub compose_and_say : Notice → Saying → Site → NoticeKinds → (Site × Bool) × NoticeKinds
unfolding say_since kind_since
compose_and_say n w site kinds =
    let r = n.compose site.log w.now in
    if not r.1
    then ((site, true), kinds)
    else (let since = kind_since w.kinds_write n.kind w.now kinds in
        (say_since n w r.0 since.1 site, since.0))

-- Behind an earlier notice that was settled, or could not be.
unfoldable pub say_behind :
    Notice → Saying → ℕ → Site × Bool → NoticeKinds → (Site × Bool) × NoticeKinds
unfolding is_same compose_and_say
say_behind n w i (site, settled) kinds =
    if not settled
    then ((site, false), kinds)
    else if is_same n (get_elem? site.log i)
    then ((site, true), kinds)
    else compose_and_say n w site kinds

unfoldable pub say_pending :
    Notice → Saying → Option ℕ → Site → NoticeKinds → (Site × Bool) × NoticeKinds
unfolding compose_and_say say_behind settle
say_pending n w none site kinds = compose_and_say n w site kinds
say_pending n w (some i) site kinds =
    if n.record_only
    then compose_and_say n w site kinds
    else say_behind n w i (settle n.approval w.earlier i false site) kinds

-- `sayAs`. A notice that is only recorded gives way where the request's notices are locked.
unfoldable pub say_as : Notice → Saying → Site → NoticeKinds → (Site × Bool) × NoticeKinds
unfolding say_pending pending_notice
say_as n w site kinds =
    if n.record_only && w.locked
    then ((site, true), kinds)
    else say_pending n w (pending_notice site.log) site kinds

-- What `post` composes.
unfoldable pub fixed_words : String → String → NoticeLog → Time → NoticeRecord × Bool
unfolding notice_due
fixed_words kind text log now =
    (record no_notice_record { kind = kind; text = text }, notice_due log kind now)

-- `post`, of a request's notices.
unfoldable pub post :
    Bool → String → String → Time → Saying → Site → NoticeKinds → (Site × Bool) × NoticeKinds
unfolding say_as fixed_words
post approval kind text at w site kinds =
    say_as
      (record {
        approval = approval;
        record_only = false;
        kind = kind;
        event = "";
        at = at;
        compose = fixed_words kind text;
      })
      w site kinds

unfoldable pub flush_pending : Bool → Answers → Option ℕ → Site → Site × Bool
unfolding settle
flush_pending approval a none site = (site, true)
flush_pending approval a (some i) site = settle approval a i false site

-- `flush`.
unfoldable pub flush : Bool → Answers → Site → Site × Bool
unfolding flush_pending pending_notice
flush approval a site = flush_pending approval a (pending_notice site.log) site
