-- ===== src/Lib.antt =====
-- LassDas carries a request for a change from its first reading to its delivery. A request has a
-- history of records; a loop reads it, asks a router for the next role, launches that role and records
-- what its processes returned. This library models that loop and everything it decides by, which is
-- the package rewrite/internal/chain of the repository; the engine around it, which watches each accepted
-- request, holds it when the requester stops it, pauses and resumes it, and says so at the issue; and
-- what reaches the tracker: a worker's scope and the limits of GitHub.
--
-- The parts, each with its file of definitions and, below it, one module for each thing that is proved:
--
--   Chain/Types         the records of rewrite/internal/chain/{chain,stages,workflow,approval}.go
--   Chain/Refusals      approval.go: the texts by which the runtime refuses and pauses an approval; Pauses
--                       and Reasons read them back
--   Chain/Runs          stages.go: stageRuns, which cuts the history into launches; the counts of
--                       reworks (entranceReworks, confirmationReworks) since the requester's reply;
--                       askingStage and changeAnswered. Bounds, Tiles and Notes are about stageRuns
--   Chain/Actions       stages.go: stageActions, what an ordered run does next. Its map of satisfied
--                       stages is a function from names to Bool. Progress gives what that map means,
--                       Validated what the checks of a workflow give, Closed and Done what is offered,
--                       Answers what changeAnswered means and Gate what a stage that always asks offers
--   Chain/Endings       stages.go and chain.go: endingOf, LastEnding, FailedInARow; Words has the sentence
--                       that a repeated launch is told; Tallied and Kinds are about what is counted
--   Chain/Workflow      workflow.go and stages.go: Validate (Graph, Ordered, Paths) and clone; Connected
--                       is about the roles that are connected
--   Chain/Offers        workflow.go: nextActions, permits, launches, atLaunchLimit, offered,
--                       launchLimitNotes and routingChoices; Choices and Limits are about them
--   Chain/Instructions  stages.go: stageInstruction
--   Chain/Routers       router.go, stages.go and single.go: DecisionRouter, Alternate, StageRouter and
--                       OneRoleRouter
--   Chain/Records       stages.go and chain.go: stageRecord, the note of a launch cut short, failedFast,
--                       and the refusal that a launch's receipt leaves
--   Chain/Run           chain.go: Run. Monad has what Run calls and what it leaves behind, Phases and
--                       Launch the parts of one round in the order of the source; Rules and Kept carry an
--                       invariant through a round, WriteAhead, Held and Returns are about the whole run,
--                       Routed and Finished about what a round goes on with
--   Engine/Turnstile    rewrite/cmd/engine/turnstile.go: the line of requests and the slots. An interleaving of
--                       the watchers is a list of moves; Order, Slots and Acquire are about it
--   Engine/WorkLimit    rewrite/cmd/engine/work_limit.go and pause.go: the record that bounds a request's active work
--                       and forced exits; Work has an interval of work and what is written to the
--                       latest pause; Valid, Latest and Kept are about the operations
--   Engine/Comments     rewrite/cmd/engine/stop.go, pause.go and question.go: which comments stop, resume or answer
--                       a request (stopInstruction, resumeInstruction, answerToQuestion, pauseReplyIDs);
--                       Lowest, Answers and Controls are about them
--   Engine/Question     rewrite/cmd/engine/question.go: recordQuestion, resumeWaitingRequest and appendAnswer over
--                       the files of a request; Once is about an answer that is taken
--   Engine/Pause        rewrite/cmd/engine/pause.go: when a request is paused, and applyPauseResume with its writes;
--                       Once is about a release that is cut short
--   Engine/Notices      rewrite/cmd/engine/notice.go: the log of a request's notices and noticeDue. Settle and
--                       Rewrite have settle with edit, Saying has sayAs, post and flush, Kinds the starts
--                       of the kinds; Due, Once, Retry, Attempts and Old are about them
--   Engine/Watch        rewrite/cmd/engine/stop.go, runWatchedRequest, with reportStoppedRequest of stop_report.go: a
--                       round of a watcher is what it meets, and its calls of the turnstile are moves of
--                       Engine/Turnstile; Held has what may be done from a stop on, and Safe, Launches,
--                       Stopped and Slots are about all rounds
--   Engine/Selection    rewrite/cmd/engine/selection.go and models.go: which model a launch is given and by which id
--                       it is invoked; Attempt has choose, selectWith, endpoints and gatewayModels, Catalog,
--                       Routes and Choose are about them
--   Engine/Turns        rewrite/cmd/engine/turns.go: what was done at the tracker for a request, and when a turn
--                       that was refused is asked again; Delays, Recorded and Handed are about it
--   Tracker/Scope       rewrite/internal/tracker/scope.go: the one issue that a worker may read and comment
--                       on (Serve has the whole request); Granted and Posts are about it
--   Tracker/Limits      rewrite/internal/tracker/github_limits.go: how long GitHub is left alone, and the answers
--                       that are kept; Cache and Steps have the invariant of the map and the order,
--                       Bounded, Recalled and Waits are about learn, keep and recall
--   Examples            a configured ordered run, its histories, and the theorems at them
--
-- How the parts interact: a watcher asks the turnstile for a slot, opens an interval of the work limit
-- and runs the loop in a child, and stops the child where a comment says so (Engine/Comments). Where
-- the child ends with a question, Engine/Question waits for its answer, and where the work limit
-- pauses the request, Engine/Pause takes the instruction that resumes it; both pass over the comments
-- that Engine/Notices posted. Run loads the state, attaches the configured workflow, notes an action
-- that was cut short, and then goes round: it looks up a question (question_phase), looks for a
-- comment (reply_phase), stops at the limit of attempts, notes the limits that were reached, asks the
-- router (route_phase), which chooses from routing_choices, tests its answer with offered, and saves,
-- launches and records (launch_phase).
--
-- Conventions. A time is a natural number and the zero time is 0. A Go int is an integer of this library,
-- except for counts; in the record of the work limit a time.Duration is the natural number of its 64 bits.
-- A map of the configuration is an association list, read by its first entry. Where the source would
-- panic on a missing first stage the model has the empty name. The errors of a check are constructors
-- and not their texts. The processes, the store, the conversation, the gate of an approval, the preview and
-- the decision service are arguments: functions of the tick at which they are asked, since each call takes one
-- tick, so whatever they answer and however often they fail is covered. The context is such a function
-- too. What is written to the log is left out.
--
-- Fuel. stage_runs is given the length of the history, and each of its rounds takes at least one record.
-- A run is given fuel for its rounds and fuel for the attempts of one load or one save; the source
-- repeats both while the context lasts. The constructor out_of_fuel of Stop is the model's own. Each
-- round and each attempt takes a tick at least, so for a context that ends at some tick more fuel than that tick is
-- enough. acquire has fuel for its tries in the same way, and the decimal form of a number has at most as many
-- digits as the number and one.
--
-- Where the engine talks to a tracker, the answers are arguments, and so is what a write of a file comes to: it is
-- stored, it reaches the file and the engine ends there, or it is lost. A comment that a tracker is asked to
-- store may be stored although no answer comes.
--
-- Not modelled: the processes of a role (process.go, live.go, receipt.go), the files of an approval
-- (approval_bundle.go and the second half of approval.go), the store and the call of the decision service
-- (store.go, jev.go, chat.go), the instructions that router.go composes for that service, and the rest of
-- the repository: the clients of the trackers, the engine's queue and approvals, the words of its notices,
-- the status page and the Python tools. They read and write files, start processes and call services. Of
-- the issue scope, a request is given as net/url and mime read it, url.PathEscape is an argument, and the
-- texts of refusals are left out. Of the watcher, the text of the report on a
-- stop, notices, announcements and the log are left out; of a pause, holdPausedRequest but for the id of
-- its notice, and what it posts; of the choice of a model, the instructions and the excerpt of the history
-- that a judge reads, and the requests of the lists, and strings.ToLower and strings.EqualFold are
-- arguments; of the turns, the comments. Of github_limits.go, the body of an answer
-- is given in lower case, the map of kept answers is an association list read by its first entry, and
-- takeChange is left out.
pub mod Base
pub mod Chain
pub mod Engine
pub mod Tracker
pub mod Examples
