-- ===== src/Engine/Notices/Settle.antt =====
-- rewrite/cmd/engine/notice.go, settle, edit, confirm and postedAfter. `Site` is what a restart finds: the record
-- of the notices, and the tracker's comments. A comment that the engine submits may be stored although
-- no answer comes, and a write may reach the file although the engine ends there.
use lass_das.Base.{
  ℕ, zero, suc, String, ◌==◌, Bool, true, false, not, ◌&&◌, ◌||◌, Option, none, some, List, [], ◌∷◌,
  ◌++◌, if◌then◌else◌, leb, ltb, ℤ, pos, same_int, less_int, is_zero,
}
use lass_das.Chain.Types.{Time}
use lass_das.Engine.Comments.{Comment, is_positive}
use lass_das.Engine.Pause.{Write, stored, written, lost, is_stored}
use lass_das.Engine.Notices.{NoticeRecord, NoticeLog}

-- `sent` notes the words of each comment that the engine stored at the issue.
pub record Site : Type 0 where
  pub log : NoticeLog
  pub comments : List Comment
  pub sent : List String

-- A call of PostComment or AddComment: answered with an id, or failed with a status, 0 for other errors;
-- and whether the tracker stored the comment, under which id.
pub data Sending : Type 0 where
  answered : ℤ → ℤ → List ℤ → Sending
  failed : ℕ → Option ℤ → Sending

pub record Answers : Type 0 where
  -- The account of the credential, where it can be read.
  pub me : Option ℤ
  pub login : String
  pub can_read : Bool
  pub sending : Sending
  pub can_read_again : Bool
  pub can_edit : Bool
  -- Whether the rewrite reached the comment, and whether the tracker said so.
  pub edited : Bool
  pub edit_answered : Bool
  pub can_read_edited : Bool
  pub edits_write : Write
  pub last_write : Write
  pub now : Time

unfoldable pub set : {A : Type 0} → List A → ℕ → A → List A
set [] i v = []
set (x ∷ xs) zero v = v ∷ xs
set (x ∷ xs) (suc i) v = x ∷ set xs i v

unfoldable pub save_log : Write → NoticeLog → Site → Site
save_log stored log site = record site { log = log }
save_log written log site = record site { log = log }
save_log lost log site = site

-- `confirm`: the files behind it, and whether it succeeded.
unfoldable pub confirm : Answers → ℕ → NoticeRecord → ℤ → Site → Site × Bool
unfolding set save_log is_stored
confirm a i r id site = (
  save_log a.last_write (set site.log i (record r { posted_at = some a.now; comment_id = id }))
      site,
  is_stored a.last_write,
)

-- A comment that may be the notice, where the run has approvals.
unfoldable pub is_own : ℤ → Comment → Bool
is_own me c =
    c.on_issue
    && (same_int c.author.id me
        && (ltb 0 c.created && (leb c.created c.updated && leb c.updated c.created)))

unfoldable pub posted_in : Bool → ℤ → String → ℤ → ℤ → List Comment → ℤ
unfolding is_own
posted_in approval me text after found [] = found
posted_in approval me text after found (c ∷ comments) =
    posted_in approval me text after
      (if (not approval || is_own me c)
          && ((less_int after c.id && (c.body == text))
              && (not approval || (is_zero found || less_int c.id found)))
        then c.id
        else found)
      comments

-- `postedAfter`, `none` for its errors.
unfoldable pub posted_after : Bool → Answers → Bool → String → ℤ → List Comment → Option ℤ
unfolding posted_in is_positive
posted_after approval a readable text after comments =
    if not readable
    then none
    else if not approval
    then some (posted_in false (pos 0) text after (pos 0) comments)
    else elim a.me [
      | none ↦ none
      | some me ↦
          if is_positive me then some (posted_in true me text after (pos 0) comments) else none
    ]

-- The comment that the kind was last confirmed as, over the records before.
unfoldable pub confirmed_before : String → ℤ → NoticeLog → ℤ
confirmed_before kind after [] = after
confirmed_before kind after (r ∷ log) =
    confirmed_before kind
      (if (r.kind == kind) && less_int after r.comment_id then r.comment_id else after) log

abbrev pub engine_comment : Answers → ℤ → String → Comment
engine_comment a id text = record {
  id = id;
  body = text;
  author = record { id = elim a.me [ none ↦ pos 0 | some me ↦ me ]; login = a.login };
  on_issue = true;
  created = a.now;
  updated = a.now;
}

-- The tracker stores the words under an id.
unfoldable pub store_comment : Answers → String → ℤ → Site → Site
store_comment a text id site = record site {
  comments = site.comments ++ engine_comment a id text ∷ [];
  sent = site.sent ++ text ∷ [];
}

-- An error of the tracker that says the words themselves are refused.
unfoldable pub is_refusal : NoticeRecord → ℕ → Bool
is_refusal r status =
    (r.kind == "approval_post")
    && (leb 400 status && (ltb status 500 && not (leb status 429 && leb 429 status)))

unfoldable pub store_failed : Answers → String → Option ℤ → Site → Site
unfolding store_comment
store_failed a text none site = site
store_failed a text (some id) site = store_comment a text id site

-- What is read back where no answer came.
unfoldable pub confirm_found : Answers → ℕ → NoticeRecord → Option ℤ → Site → Site × Bool
unfolding confirm
confirm_found a i r none site = (site, false)
confirm_found a i r (some id) site = if is_zero id then (site, false) else confirm a i r id site

-- The submission, and what its answer comes to.
unfoldable pub submit : Bool → Answers → ℕ → NoticeRecord → ℤ → Sending → Site → Site × Bool
unfolding store_comment is_refusal set save_log store_failed confirm confirm_found posted_after
submit approval a i r after (answered id told also) site =
    confirm a i (record r { also = also }) told (store_comment a r.text id site)
submit approval a i r after (failed status landed) site =
    let site' = store_failed a r.text landed site in
    if is_refusal r status
    then (save_log a.last_write (set site'.log i (record r { obsolete = true })) site', false)
    else confirm_found a i r (posted_after approval a a.can_read_again r.text after site'.comments)
        site'

-- Submitted, unless it is there already.
unfoldable pub submit_unseen : Bool → Answers → ℕ → NoticeRecord → ℤ → Option ℤ → Site → Site × Bool
unfolding submit confirm is_positive
submit_unseen approval a i r after none site = (site, false)
submit_unseen approval a i r after (some id) site =
    if is_positive id then confirm a i r id site else submit approval a i r after a.sending site

-- `settle` behind a rewrite: the issue is read before a notice is submitted again.
unfoldable pub settle_new : Bool → Answers → ℕ → NoticeRecord → ℤ → Bool → Site → Site × Bool
unfolding submit submit_unseen posted_after
settle_new approval a i r after fresh site =
    if fresh
    then submit approval a i r after a.sending site
    else submit_unseen approval a i r after
        (posted_after approval a a.can_read r.text after site.comments) site
