-- ===== src/Examples/Notices.antt =====
-- The theorems about notices, at a notice whose answer is lost.
use lass_das.Base.{
  suc, ◌≤◌, ◌==◌, true, false, none, some, List, [], ◌∷◌, refl, pos, take, length, All,
}
use lass_das.Engine.Comments.{Comment}
use lass_das.Engine.Pause.{stored, lost}
use lass_das.Engine.Notices.{NoticeRecord}
use lass_das.Engine.Notices.Settle.{Site, Answers, answered, failed, confirmed_before}
use lass_das.Engine.Notices.Rewrite.{Visit, settle_all}
use lass_das.Engine.Notices.Saying.{no_notice_record}
use lass_das.Engine.Notices.Once.{IsNewer}
use lass_das.Engine.Notices.Attempts.{settle_all-once}

abbrev confirmed_stage : NoticeRecord
confirmed_stage = record no_notice_record {
  kind = "stage:work";
  text = "The work begins.";
  written_at = 20;
  posted_at = some 21;
  comment_id = pos 11;
}

-- The same stage begins again: the words are those of the comment 11.
abbrev second_stage : NoticeRecord
second_stage = record no_notice_record {
  kind = "stage:work";
  text = "The work begins.";
  written_at = 40;
}

abbrev engine_says : Comment
engine_says = record {
  id = pos 11;
  body = "The work begins.";
  author = record { id = pos 9; login = "engine" };
  on_issue = true;
  created = 21;
  updated = 21;
}

abbrev site : Site
site = record {
  log = confirmed_stage ∷ second_stage ∷ [];
  comments = engine_says ∷ [];
  sent = "The work begins." ∷ [];
}

-- The comment is stored, and no answer comes.
abbrev unanswered : Answers
unanswered = record {
  me = some (pos 9);
  login = "engine";
  can_read = true;
  sending = failed 0 (some (pos 12));
  can_read_again = false;
  can_edit = false;
  edited = false;
  edit_answered = false;
  can_read_edited = false;
  edits_write = stored;
  last_write = stored;
  now = 41;
}

abbrev visits : List Visit
visits =
    record { others = []; answers = unanswered }
    ∷ record {
      others = [];
      answers = record unanswered { can_read = false; sending = failed 500 none };
    }
    ∷ record {
      others = [];
      answers = record unanswered { sending = answered (pos 13) (pos 13) []; last_write = lost };
    }
    ∷ record { others = []; answers = record unanswered { sending = failed 0 none } }
    ∷ []

newer :
    All
      (λ (v : Visit).
        IsNewer (confirmed_before "stage:work" (pos 0) (take 1 site.log)) v.answers.sending)
      visits
unfolding confirmed_before ◌==◌
newer = (refl, (tt, (refl, (tt, tt))))

settle_all-once_example : length (settle_all false 1 true visits site).sent ≤ suc (length site.sent)
settle_all-once_example = settle_all-once 1 second_stage true visits site refl newer
