-- ===== src/Lib.antt =====
-- CloudWeave is a replicated object store. This library models the interactive parts of its
-- documentation site (documentation/components, TypeScript and React): the simulators that show a
-- reader how quorums, failures, repair, erasure coding and deduplication work, and the code
-- highlighter of every page. Each of these is a React component: hooks that hold its state, handlers
-- that change it, timers that change it later, and a function from the state to what is shown.
--
-- How a component is modelled. Its hooks are one record. A handler without timers is a function of
-- the record (`update`, or a function of the handler's name); one that sets timers takes a `World`,
-- the record with a clock and the queue of tasks that are still to run (EventLoop), and the body of a
-- timer is a constructor of `Task` that `run` carries out. What is shown is a `Node` (Html), with every
-- element, attribute and class name of the source; a handler attached to an element is the event that
-- it raises, so `clicks` lists all that a reader can do in a state. A disabled button raises nothing.
-- The components meet only through the page that holds them; none calls another's handlers. A page
-- that mounts other components holds their states, and relabels what they show with its own events.
-- A component whose only state is what was chosen takes that as its state and as its events.
--
-- Files and sources, under documentation/components:
--   Html, EventLoop           React elements and the browser's timers, as the components use them
--   Playground/Quorum         playground/QuorumVisualizer.tsx (toggleNodeFail, acks, ackCount,
--                             writeSuccess, strongConsistency)
--   Playground/Recovery       playground/FailureRecoverySimulator.tsx (handleSimulateFailure,
--                             handleReset)
--   Playground/Erasure        playground/ErasureCodingPlayground.tsx (toggleShard, handleReset) and,
--                             in Canvas, what canvas/ErasureCanvas.tsx shows of the same state
--   Playground/Deduplication  playground/DeduplicationPlayground.tsx (handleSecondUpload, handleReset)
--   Playground/Stepper        playground/SimulationStepper.tsx
--   Canvas/Failure            canvas/FailureCanvas.tsx (handleKillNode, handleReset)
--   Canvas/Coding             canvas/ErasureCoding3D.tsx (toggleShard, handleReconstruct, handleReset)
--   Canvas/Crash              canvas/FailureRecovery3D.tsx (handleKillNode, handleReset)
--   Canvas/System             canvas/MasterSystemCanvas.tsx (activeChunk, the effect of the playback)
--   Canvas/Pipeline           canvas/Pipeline3DScroll.tsx (stages, currentStage, the controls)
--   Canvas/Dedup              canvas/DedupCanvas.tsx
--   Playground/Ring           playground/ConsistentHashRing.tsx (toggleNode, chunkAngleMap)
--   Playground/Chunks         playground/UploadChunkingVisualizer.tsx (sampleChunks)
--   Playground/Trace          playground/RequestTrace.tsx
--   Pages/Experiments         experiments/ExperimentsView.tsx, with the simulators that it mounts
--   Pages/GetStarted          cta/GetStartedView.tsx (handleCopyOneLiner, generateCompose)
--   Pages/Landing             landing/LandingPage.tsx (copyInstall)
--   Pages/Benchmarks          benchmarks/BenchmarksView.tsx
--   Pages/Docs                docs/DocsReader.tsx, DocsView.tsx and DocsReferenceView.tsx
--   Pages/Quickstart          quickstart/QuickstartView.tsx
--   Pages/Architecture        architecture/ArchitectureMap.tsx
--   EventLoop/Effect, Trig    effects that keep one timer; coordinates on circles
--   EventLoop/Clipboard       navigator.clipboard.writeText, whose promise no component awaits
--   Playground/Shell          playground/PlaygroundShell.tsx
--   Layout/Navbar             layout/Navbar.tsx (isActive)
--   Layout/Search             layout/SearchModal.tsx (filtered, handleKeyDown), with the items of the
--                             search; the calls that go to the parent are an output of a handler
--   Ui/CodeBlock              ui/CodeBlock.tsx (tokenizeLine, TokenSpan, handleCopy); Regex holds a
--                             matcher with the priorities of JavaScript's, Patterns the expressions
--
-- Bounds. The loops of tokenizeLine over `exec` run on a fuel of the length of the text: each round
-- takes at least one character, so that is enough, and the loops of the other components are over
-- lists. Numbers are natural numbers; no figure of the modelled components leaves the range in which
-- JavaScript's numbers are exact. A text is a list of code points where the source indexes UTF-16
-- units, which differ beyond the basic plane only. A range input is taken to keep its number between
-- its `min` and `max`. Timers run in the order in which they are due, those due at one time in the
-- order in which they were set, and a click comes between two tasks. That a page is left while a timer
-- runs is modelled for the simulators of the experiments page: the timers stay in the queue with the
-- number of the mount that set them, and the state that they set is not mounted any more. A text that is
-- given to the clipboard is open until the browser grants or refuses it, in the order in which the texts
-- were given, and others may write the clipboard at any time.
-- The speed of the system canvas counts halves, so that the delay of 2800 / speed milliseconds, which
-- setTimeout cuts to whole ones, is 5600 / speed; other quotients, which only set animations or
-- widths, are kept as the texts of their terms. The results of Math.cos and Math.sin are a parameter,
-- the record Trig.
--
-- Not modelled: the system itself (client, cmd, internal), which is written in Go, but for the names of
-- the environment variables of cmd/node/main.go; the pages and views
-- that hold texts only, the layout of the site, and the panels of the playground without state; what is
-- drawn frame by frame (the beams and cameras of the scenes, VaultRing3D, FullBleedVaultLock3D and the
-- scenes of Pipeline3DScroll); and the libraries that the components call (React, framer-motion,
-- three.js, lucide), whose elements are kept as elements with their attributes.
pub mod Prelude
pub mod Html
pub mod EventLoop
pub mod Playground
pub mod Ui
pub mod Canvas
pub mod Layout
pub mod Pages
pub mod Trig
