-- ===== src/Lib.antt =====
-- A model of Omnigrex's core, and the properties that make it correct.
--
-- Omnigrex takes a Work Item (a GitHub Issue) through Stages that Agents work in Turns: planning,
-- implementation, review, until a Change Proposal is ready for a human. Four packages hold the logic
-- of this as functions on values, and all four are modelled.
--   internal/workflow: a Snapshot is the durable state of one Work Item. The Reducer, built from a
--     Workflow Definition and a limit of infrastructure retries, takes a Snapshot and an Event to a
--     Decision: the next Snapshot, a disposition, a reason, and the Actions that the rest of the
--     program carries out. The store loads the Snapshot, saves it, records the Actions, and makes a
--     Turn active; the adapters turn what happens outside into Events.
--   internal/collaboration: what people and Agents say to each other about a Work Item. A State holds
--     rounds of questions, the inputs that people give by commands, what an Agent made of them, and
--     the planning checkpoints. Accept takes a command, Prepare freezes the inputs that a Turn of the
--     Workflow gets, Resolve and Assess record the Agent's readings, and a checkpoint is reserved,
--     published, validated and confirmed before planning settles.
--   internal/role: the catalog of Roles that the Stages name, and the policy of each Role: its tools
--     and credentials. ValidateRolePolicies demands of each Stage that its Role has the tools that
--     emit the Stage's outcomes.
--   internal/stepbudget: the limit of steps of one execution.
--
-- Files:
--   Prelude and Prelude/: Boolean tests on the native numbers, signed numbers, texts and their
--     characters, decimal numerals, slices that can be nil, words of fixed width, `Run`, a
--     computation that can panic at a nil pointer, and lemmas on searches in and updates of lists.
--   Workflow/Model/: internal/workflow/model.go. Vocabulary holds the enumerations, Snapshots the
--     Snapshot and its parts, Events and Actions their types and the Decision.
--   Workflow/Definition/: internal/workflow/definition.go and builtin.go. Ids is validStageID,
--     Stages the types and the lookups, Build is NewDefinition, RolePolicies is
--     ValidateRolePolicies, Builtin is NewBuiltinDefinition; Sound, BuiltinLaws, IdLaws and
--     ReviewAuthority are proofs, PolicyExamples the built-in policies.
--   Workflow/Validation/: internal/workflow/validation.go. EventCheck is eventDetails and
--     validEvent, SnapshotRun is validSnapshot with the pointers it reads, SnapshotCheck its parts
--     and the same as a plain test, AssignmentCheck is validAssignments, Parts the small checks and
--     legalInState.
--   Workflow/Reducer/: internal/workflow/reducer.go. Basics are the shared helpers; Failures,
--     Triggering, Settling, Developing, Reviewing, Revalidating, Observing and Closing are the
--     handlers; Step is dispatch and Reduce; Compatibility is DefinitionCompatible,
--     DefinitionIncompatible and CorroborationDefinitionIncompatible. A function reduceX of the
--     source is reduce_x; a long one is split at its early returns into functions that a comment
--     places.
--   Workflow/Laws/: the proofs about the Reducer. Lawful states what every handler's Decision obeys,
--     the modules …Laws prove it of each handler, ReduceLaws of Reduce, and Contract draws the
--     conclusions. Totality, CheckTotality and SettlementTotality are about nil pointers. Readiness, ReadyEvents,
--     ReadyIntents, UnmarkingLaws and ReadyEntry are about PR_READY, Fencing and Deferral about the
--     active Turn, Admission about revalidated intents, Beginning and Starting about triggers, Retries about infrastructure
--     failures, Retention about closing, Incompatible about a Definition that changed, and History
--     about sequences of Events, between which the store can make a Turn active or release it.
--   Workflow/Scenarios, Workflow/Interruptions, Workflow/Runs and Workflow/Examples: concrete
--     Snapshots and Events, their runs, and each property at one of them.
--   Collaboration/Model/: the types of internal/collaboration/model.go, assessment.go, references.go
--     and planning.go. Records holds rounds, inputs, resolutions, assessments and receipts, Planned
--     the checkpoints, States the State.
--   Collaboration/References, Rounds and Inputs/: reference and Target of references.go; Request,
--     Publish and FailPublication of model.go; Accept (Accepting), Prepare and MarkDelivered
--     (Delivering), and what Project of projection.go does to the State (Projecting).
--   Collaboration/Evidence/: Lineage is amends, evidenceLineage and what rests on them; Currency is
--     resolutionCurrent, Pending, Unresolved and assessmentBlocked; Priors, Reach and Amending are
--     proofs.
--   Collaboration/Interpreting/: Resolving is Resolve, Assessing is Assess of assessment.go, Effects
--     the functions that ask whether either has had its effect.
--   Collaboration/Planning/: internal/collaboration/planning.go. Checkpoints is StartPlanning and the
--     operations on a reserved checkpoint, Reserving is ReserveCheckpoint, Validating is
--     ValidatePlanning and PlanningValidationCurrent.
--   Collaboration/Paging: PageRecord of internal/collaboration/projection.go, and a reader of pages.
--   Collaboration/History: the States that sequences of operations reach, and what holds in them.
--   Collaboration/Laws/: the proofs: Naming and the modules …Sound about the shape of a State,
--     PlanKeeps and Following about what all operations leave alone, Freezing about the batch of a
--     Turn, Replies about Accept, Deliveries about Prepare, Recording, Resolved,
--     Confirming and Validated about the interpretations and validations.
--   Collaboration/Examples/: a course of planning, its runs, and each property at a State of it.
--   Role/: internal/role. Catalog is catalog.go, Policies and Builtin are policy.go, Authority and
--     Completeness hold the proofs and Examples the runs.
--   StepBudget: internal/stepbudget/budget.go, with its round trip; StepBudget/Examples runs it.
--
-- How the source is read. A pointer is an Option, and reading a nil pointer is `panic`. A struct is a
-- value, so cloneSnapshot, Clone, cloneRevision and slices.Clone are the identity, and an operation
-- on a *State takes the State and returns the next one; the error ErrInvalid is `none`, after which
-- the State is as it was. A slice is a list, and a `Slice`, which can be nil, where reflect.DeepEqual
-- tells nil from empty. Resolve also writes the coverage of a resolution into the caller's batch;
-- that is no part of the State. A Workflow enumeration has the source's constants and
-- `unset` for the empty text; other texts are not values of it. Strings are Unicode texts, so
-- utf8.ValidString holds. int64 identities and instants are signed numbers; an instant stands for
-- time.Time compared by Equal, After and Before, with the zero time as 0. uint64 and uint8 counters
-- wrap. A map is an association list. `foreign` is an Event value of no listed type, nil included.
-- validSnapshot is modelled with its reads (`check_snapshot`); `valid_snapshot`, which the statements use,
-- is the test that it decides. reduceReviewSettled reads its pointers before its comparisons here, after the first of them in the
-- source; the difference shows at a nil pointer only. The errors of NewDefinition carry the check
-- that failed in place of a message.
--
-- Fuel. Loops over a list are recursion on it. Two loops of internal/collaboration are not over a
-- list. The loop of amends gets as many rounds as there are inputs and one more: Accept lets an input
-- amend only one that is there before it, so no identity comes twice on the way. The closure visit of
-- evidenceLineage calls itself at most as deep as there are ends of edges, and two more, since a call
-- for an identity that was seen returns at once. The reader of pages, which a proof uses, gets as many
-- rounds as there are characters.
--
-- Parameters. The check of a Role in a Workflow Definition is a predicate on Roles, which the Role
-- catalog fills. The two embedded instruction files are arguments of the built-in Definition. The
-- SHA-256 of an encoded record is a parameter of PageRecord, and the length of the encoded object is one
-- of Project.
--
-- Not modelled: the JSON that Records and Project return, and publication.go, in
-- internal/collaboration; the decoders of JSON and YAML in internal/stepbudget; internal/reviewpolicy
-- and internal/uuidtext; the store, which also sets a checkpoint's ReadyRevision at the settlement of
-- planning, so that no operation here sets it; the store's other writes beside the Reducer, among them
-- those of the Decisions of DefinitionIncompatible, which are modelled but are no step of History; the execution of Agent Turns, GitHub, MCP, the
-- runtimes, configuration and the commands, which do I/O.
pub mod Prelude
pub mod Workflow
pub mod Collaboration
pub mod StepBudget
pub mod Role
