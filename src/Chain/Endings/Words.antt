-- ===== src/Chain/Endings/Words.antt =====
-- stages.go, Ending.instruction and EndingKinds.inWords: the account of an ending for the next launch.
use lass_das.Base.{
  ◌<>◌, ℕ, String, ◌==◌, decimal, Bool, false, not, ◌||◌, List, [], ◌∷◌, if◌then◌else◌, ltb,
}
use lass_das.Chain.Endings.{EndingKinds, Ending}

-- `strings.Join(parts, ", ")`.
unfoldable pub join_parts : List String → String
join_parts [] = ""
join_parts (part ∷ []) = part
join_parts (part ∷ next ∷ parts) = part <> (", " <> join_parts (next ∷ parts))

-- A count with the words for one and for several, as the loop of `inWords` visits them.
abbrev Words : Type 0
Words = ℕ × String × String

words_of : EndingKinds → List Words
words_of k =
    (k.forced, "forced exit", "forced exits")
    ∷ (k.stopped, "stop by the runtime", "stops by the runtime")
    ∷ (k.timed_out, "time limit", "time limits")
    ∷ (k.no_model, "launch without a model", "launches without a model")
    ∷ (k.errors, "process error", "process errors")
    ∷ []

all_alike : ℕ → List Words → Bool
all_alike attempts [] = false
all_alike attempts ((count, _, _) ∷ words) =
    not (ltb count attempts || ltb attempts count) || all_alike attempts words

parts_of : List Words → List String
parts_of [] = []
parts_of ((count, one, plural) ∷ words) =
    let more = parts_of words in
    if ltb 1 count
    then (decimal count <> (" " <> plural)) ∷ more
    else if ltb 0 count
    then ("1 " <> one) ∷ more
    else more

-- Nothing is said where one kind has all the attempts.
unfoldable pub in_words : EndingKinds → ℕ → String
unfolding words_of all_alike parts_of join_parts
in_words k attempts =
    if all_alike attempts (words_of k) then "" else ": " <> join_parts (parts_of (words_of k))

unfoldable pub activity_or_unknown : String → String
activity_or_unknown activity =
    if activity == ""
    then "Its last command is unknown: the role left no record of it."
    else activity

how_ended : Ending → String
how_ended e =
    if e.forced
    then "was cut off when the runtime itself was killed (lack of memory is one cause)"
    else if e.interrupted
    then "was cut off when the runtime stopped"
    else if e.timed_out
    then "was stopped at its time limit"
    else if e.no_model
    then "could not select a current model for every process"
    else "ended with a process error, which is in the record below"

unfoldable pub ending_instruction : Ending → String
unfolding how_ended in_words activity_or_unknown
ending_instruction e =
    if not (e.approval_failure == "")
    then e.role <> (": " <> (e.error <> "\n"))
    else "The previous launch of "
      <> (e.role
          <> (" (attempt "
              <> (decimal e.attempt
                  <> (" in a row that did not end cleanly"
                      <> (in_words e.kinds e.attempt
                          <> (") "
                              <> (how_ended e
                                  <> (". "
                                      <> (activity_or_unknown e.activity
                                          <> " Do not repeat what it did unchanged: suspect the cause (memory, time or wrong arguments) and change the plan.\n")))))))))
