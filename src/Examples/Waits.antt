-- ===== src/Examples/Waits.antt =====
-- The theorems about GitHub's limits, at a limit that is met twice and an answer that is kept.
use lass_das.Base.{
  ◌≤◌, ◌<◌, ◌+◌, true, false, some, [], ◌∷◌, ◌≡◌, refl, max, length, arith, lookup, contains_text,
  ◌==◌,
}
use lass_das.Tracker.Limits.{
  KeptAnswer, Shared, Answer, longest_wait, closed_until, is_limited, learn, keep, recall,
  kept_item,
}
use lass_das.Tracker.Limits.Cache.{total}
use lass_das.Tracker.Limits.Steps.{IsSound, IsBounded}
use lass_das.Tracker.Limits.Bounded.{keep-IsBounded}
use lass_das.Tracker.Limits.Recalled.{recall-keep}
use lass_das.Tracker.Limits.Waits.{learn-quiet}

abbrev new_shared : Shared
new_shared = record { kept = []; order = []; size = 0; quiet = 0; strikes = 0 }

abbrev issue_answer : KeptAnswer
issue_answer = record { etag = "\"a\""; content = 123 ∷ 125 ∷ []; header = [] }

abbrev limited_answer : Answer
limited_answer = record {
  status = 403;
  remaining = "12";
  retry_after = "";
  reset = "";
  text = "you have exceeded a secondary rate limit";
}

new-IsSound : IsSound new_shared
unfolding total lookup contains_text
new-IsSound = record { distinct = tt; indexed = λ k. refl; counted = refl }

new-IsBounded : IsBounded new_shared
new-IsBounded = (omega arith, omega arith)

keep-IsBounded_example :
    IsSound (keep "/issues/7" issue_answer new_shared)
    × IsBounded (keep "/issues/7" issue_answer new_shared)
keep-IsBounded_example =
    keep-IsBounded "/issues/7" issue_answer new_shared new-IsSound new-IsBounded

issue_answer_small : length issue_answer.content ≤ kept_item
issue_answer_small = ground arith

issue_answer_tagged : (issue_answer.etag == "") ≡ false
unfolding ◌==◌
issue_answer_tagged = refl

recall-keep_example :
    recall "/issues/7" (keep "/issues/7" issue_answer new_shared) ≡ some issue_answer
recall-keep_example =
    recall-keep "/issues/7" issue_answer new_shared new-IsSound issue_answer_tagged
      issue_answer_small

learn-quiet_example :
    (0 ≤ (learn limited_answer 5000 new_shared).quiet)
    × ((learn limited_answer 5000 new_shared).quiet ≤ max 0 (5000 + longest_wait))
    × (is_limited limited_answer ≡ true
        → 5000 < closed_until 5000 (learn limited_answer 5000 new_shared))
learn-quiet_example = learn-quiet limited_answer 5000 new_shared
