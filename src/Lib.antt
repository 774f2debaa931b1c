-- ===== src/Lib.antt =====
-- squad runs coding agents, alone or in pipelines of stages, and on a schedule. This library models
-- the parts of it that decide: what a valid pipeline is and in which order its stages run, what a run
-- does, what agents may do to files and commands, which paths a skill opens, and which scheduled
-- fires were missed.
--
-- Pipeline.antt is the data of pipeline/pipeline.go, with the accessors. Below it:
--   Validate is Validate with its helpers; Validity says what a valid pipeline is, with no
--     reference to the code, in Stages and References for its parts;
--   Cycle is detectCycle, a walk in three colours; a call of the source's closure `visit` takes one
--     unit of fuel, and one more than there are stages is enough (Cycle/Fuel);
--   Order is TopologicalOrder, Kahn's algorithm by rounds; Go leaves the order of a map open, so the
--     model takes any order for each round (`MapOrder`); a round schedules a stage at least, so
--     one round more than there are stages is enough (Order/Rounds);
--   Partitions is pipeline/partition.go over a tree of files that is given;
--   Handoff is pipeline/summarize.go;
--   Runner is pipeline/runner.go: Runner itself has the data, the budget and runAgent, PreGates,
--     Context, Stages and Run the rest, in the order in which Run comes to it. Agents, shell, git
--     and the model that summarises are callbacks that change a world of their own (`Env`). The
--     goroutines of a tier, a stage or its partitions run one after the other there, so that a budget
--     is bounded in it only where no two agents run at once (Runner/Budget); Interleaved has the
--     budget alone, for agents that check it, read their caps and end in any order.
-- Tools.antt holds the models of tools/cmdsafety.go, loopdetect.go, retry.go, asciiguard.go,
-- commentguard.go, multiedit.go, filetracker.go and findings.go, each in the module of its
-- name. The runner shares the findings store with the agents; Edit and MultiEdit ask the two guards.
--   ToolLoop is the loop of tools/tools.go between a model and its tools: ToolLoop itself has the
--     variables and the notices, ToolLoop/Iterate one iteration, the loop and RunWithTools; it recurs
--     on the iterations that are left. It asks Messages, EditEnforcer (with the grace period),
--     PhaseEnforcer and ReadCache (both of tools/efficiency.go), Dispatch (executeToolCalls),
--     Rolling and Compaction, the latter with Calibration, Stats and Summary. The model, the
--     handlers and the metrics change a world of their own (`ToolLoop.Env`); calls that run at once
--     are taken in the order of their index.
--   Paths is ResolvePath of tools/tools.go, over the components of Unix paths; EditFiles is its tool Edit
--     and the tool of tools/multiedit.go, from the path of a call to the file that is written. What
--     os.Getwd answers, which files can be written, and the string that names a path are given.
--   Task is tools/task.go, child agents at once and in the background, the latter as steps in any order.
--   Transcript is tools/transcript.go, what a resumed run replays; what JSON makes of a text is given.
-- Skill/Stack.antt is skill/stack.go, over the components of Unix paths.
-- Routine.antt holds routine/manifest.go, scope.go and catchup.go. The loop of catchup.go takes as many
-- rounds as there are times before now, at most (Routine/Catchup/Latest).
-- Shard.antt is runner/shard.go, an agent that runs once for each shard of its files: Config is the
-- block `execution` of agent/bundle.go, Files the work-list and its shards, Claims the check of a report
-- (with its part of runner/apply.go), Single one shard, Merge the end of the run. Pool has the goroutines
-- as steps in any order, with the places of the semaphore; the loop that cuts batches takes as many rounds as there are files, at most.
-- Base.antt has what all share: lists and integers over the native numbers, `(value, error)` results,
-- Go maps as lists of entries, texts as lists of characters.
--
-- Costs are whole ten-thousandths of a dollar, the precision in which a cap is passed to an agent, where
-- the source has float64, and times are numbers. A text
-- that the code walks is a list of code points; lengths in bytes are lengths of the list, so the
-- model is exact for texts whose characters are one byte long, and in the guards for every text.
-- Regular expressions, YAML, JSON, cron expressions, glob patterns, SHA-256 and symbolic links are
-- parameters, or left out where no result needs them. Not modelled: the scheduler and the store of
-- routines, sessions, metrics, configuration, the protocol clients, the command line and the terminal
-- output, which are mostly input and output; durations, tracing and logging.
pub mod Base
pub mod Pipeline
pub mod Tools
pub mod Skill
pub mod Routine
pub mod Shard
