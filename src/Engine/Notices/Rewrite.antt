-- ===== src/Engine/Notices/Rewrite.antt =====
-- rewrite/cmd/engine/notice.go, edit and settle: a notice that rewrites an earlier comment, and every other.
use lass_das.Base.{
  ℕ, zero, suc, String, ◌==◌, Bool, true, false, not, ◌&&◌, ◌||◌, Option, none, some, List, [], ◌∷◌,
  ◌++◌, if◌then◌else◌, is_some, ℤ, pos, negsuc, same_int, less_int, is_zero, get_elem?, take, map,
}
use lass_das.Engine.Comments.{Comment, is_positive}
use lass_das.Engine.Pause.{is_stored}
use lass_das.Engine.Notices.{NoticeRecord, NoticeLog}
use lass_das.Engine.Notices.Settle.{
  Site, Answers, set, save_log, confirm, posted_after, confirmed_before, settle_new,
}

-- `id - 1`.
unfoldable pub before_id : ℤ → ℤ
before_id (pos zero) = negsuc 0
before_id (pos (suc n)) = pos n
before_id (negsuc n) = negsuc (suc n)

-- The words recorded for a comment: those of the latest notice that was confirmed as it.
unfoldable pub recorded_words : ℤ → String → NoticeLog → String
recorded_words id words [] = words
recorded_words id words (r ∷ log) =
    recorded_words id (if same_int r.comment_id id then r.text else words) log

-- What the loop over the comments finds: the notice itself, or the comment to be rewritten.
pub data Look : Type 0 where
  itself : ℤ → Look
  target : Option Comment → Look

unfoldable pub look : NoticeRecord → String → ℤ → Option Comment → List Comment → Look
look r recorded after found [] = target found
look r recorded after found (c ∷ comments) =
    let rest =
      look r recorded after
        (if same_int c.id r.edits && (c.body == recorded) then some c else found) comments in
    if (c.body == r.text) && (same_int c.id r.edits || less_int after c.id)
    then itself c.id
    else rest

-- The comment is the engine's own, and the tracker can replace its words.
unfoldable pub may_edit : Answers → Option Comment → Bool
may_edit a none = false
may_edit a (some c) =
    a.can_edit && elim a.me [ none ↦ false | some me ↦ not (is_zero me) && same_int c.author.id me ]

unfoldable pub rewrite_comment : Answers → NoticeRecord → Comment → Comment
rewrite_comment a r c =
    if same_int c.id r.edits then record c { body = r.text; updated = a.now } else c

unfoldable pub edit_comment : Answers → NoticeRecord → Site → Site
unfolding rewrite_comment
edit_comment a r site =
    if a.edited then record site { comments = map (rewrite_comment a r) site.comments } else site

-- `edit`: settled or failed, or the notice becomes a new comment.
pub data EditEnd : Type 0 where
  ends : Site × Bool → EditEnd
  renews : Site → EditEnd

unfoldable pub give_up : Answers → ℕ → NoticeRecord → Site → EditEnd
unfolding set save_log is_stored
give_up a i r site =
    let site' = save_log a.edits_write (set site.log i (record r { edits = pos 0 })) site in
    if is_stored a.edits_write then renews site' else ends (site', false)

-- What follows a rewrite that the tracker did not confirm.
unfoldable pub edit_unanswered : Answers → ℕ → NoticeRecord → Option ℤ → Site → EditEnd
unfolding give_up confirm
edit_unanswered a i r none site = ends (site, false)
edit_unanswered a i r (some id) site =
    if same_int id r.edits then ends (confirm a i r id site) else give_up a i r site

unfoldable pub edit_target : Bool → Answers → ℕ → NoticeRecord → Option Comment → Site → EditEnd
unfolding may_edit edit_comment edit_unanswered give_up confirm posted_after before_id
edit_target approval a i r found site =
    let site' = edit_comment a r site in
    if not (may_edit a found)
    then give_up a i r site
    else if a.edit_answered
    then ends (confirm a i r r.edits site')
    else edit_unanswered a i r
        (posted_after approval a a.can_read_edited r.text (before_id r.edits) site'.comments) site'

unfoldable pub edit_looked : Bool → Answers → ℕ → NoticeRecord → Look → Site → EditEnd
unfolding edit_target confirm
edit_looked approval a i r (itself id) site = ends (confirm a i r id site)
edit_looked approval a i r (target found) site = edit_target approval a i r found site

unfoldable pub edit : Bool → Answers → ℕ → NoticeRecord → ℤ → Site → EditEnd
unfolding look recorded_words edit_looked
edit approval a i r after site =
    if not a.can_read
    then ends (site, false)
    else edit_looked approval a i r
        (look r (recorded_words r.edits "" (take i site.log)) after none site.comments) site

unfoldable pub settle_edited : Bool → Answers → ℕ → NoticeRecord → ℤ → EditEnd → Site × Bool
unfolding settle_new
settle_edited approval a i r after (ends site) = site
settle_edited approval a i r after (renews site) =
    settle_new approval a i (record r { edits = pos 0 }) after false site

-- A run with approvals rewrites no comment.
unfoldable pub settle_approval : Answers → ℕ → NoticeRecord → ℤ → Bool → Site → Site × Bool
unfolding set save_log is_stored settle_new
settle_approval a i r after fresh site =
    let site' = save_log a.edits_write (set site.log i (record r { edits = pos 0 })) site in
    if is_positive r.edits
    then (if is_stored a.edits_write
        then settle_new true a i (record r { edits = pos 0 }) after fresh site'
        else (site', false))
    else settle_new true a i r after fresh site

unfoldable pub settle_record : Bool → Answers → ℕ → NoticeRecord → Bool → Site → Site × Bool
unfolding settle_approval settle_edited edit settle_new confirmed_before is_positive
settle_record approval a i r fresh site =
    let after = confirmed_before r.kind (pos 0) (take i site.log) in
    if is_some r.posted_at
    then (site, true)
    else if approval
    then settle_approval a i r after fresh site
    else if is_positive r.edits
    then settle_edited approval a i r after (edit approval a i r after site)
    else settle_new approval a i r after fresh site

unfoldable pub settle_found : Bool → Answers → ℕ → Bool → Option NoticeRecord → Site → Site × Bool
unfolding settle_record
settle_found approval a i fresh none site = (site, true)
settle_found approval a i fresh (some r) site = settle_record approval a i r fresh site

-- `settle`. An index past the end, which no caller gives, would panic.
unfoldable pub settle : Bool → Answers → ℕ → Bool → Site → Site × Bool
unfolding settle_found
settle approval a i fresh site = settle_found approval a i fresh (get_elem? site.log i) site

-- One attempt, behind whatever comments others wrote since the last.
pub record Visit : Type 0 where
  pub others : List Comment
  pub answers : Answers

unfoldable pub visit : Bool → ℕ → Bool → Visit → Site → Site
unfolding settle
visit approval i fresh v site =
    (settle approval v.answers i fresh (record site { comments = site.comments ++ v.others })).0

-- The first attempt may be that of a notice just recorded. A restart leaves the files and the issue as they are.
unfoldable pub settle_all : Bool → ℕ → Bool → List Visit → Site → Site
unfolding visit
settle_all approval i fresh [] site = site
settle_all approval i fresh (v ∷ visits) site =
    settle_all approval i false visits (visit approval i fresh v site)
