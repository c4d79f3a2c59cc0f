-- ===== src/Lib.antt =====
-- Verification library of doc-scraper, a crawler that turns documentation sites into Markdown and
-- serves them to language models.
--
-- The program has four layers. A crawl (pkg/crawler) takes URLs from a queue (pkg/queue), fetches
-- them (pkg/fetch) under a delay and a permit for each host, parses them under a memory budget
-- (pkg/pagebudget), writes Markdown and chunks, and at its end decides whether what it has replaces
-- the corpus that is live. The orchestrator runs crawls side by side; the MCP server (pkg/mcp) and
-- the watch scheduler (pkg/watch) start them, from tool calls and from a timer.
--
-- What is modelled, and where:
--   * Errors: the sentinel errors of pkg/utils/errors.go. An error is its text with the sentinels that
--     it wraps, and `is` is errors.Is.
--   * Crawler.Failures: pkg/crawler/failures.go, the classes of failed pages and their tally.
--     Crawler.Loss: pkg/crawler/loss.go, the verdict on a finished crawl (decideLoss).
--   * Jobs: pkg/mcp/jobs.go. Jobs.Types holds its types, Jobs.Table the functions on the table of jobs
--     (viewLocked, snapshotLocked, pruneTerminalLocked), Jobs.Manager the methods on jobs, Jobs.Slots
--     the crawl slot of a site (StartJob, ReserveSite, FinishJob, WaitIdle), Jobs.Persist the jobs
--     file. The body of a method under the lock is one function on the manager's state, so that a
--     history of calls is a list of them (Jobs.History). Where a method waits on a channel, a round
--     says what the other goroutines did and what ended the wait.
--   * PageBudget: pkg/pagebudget/pagebudget.go. PageBudget.Attrs is the scanner of attributes on bytes
--     (countAttrs, skipAttrValue), PageBudget.Budget the budget (Parse, Reserve).
--   * Fetch.RateLimit, Fetch.HostSemaphore and Fetch.Retry: pkg/fetch/ratelimit.go,
--     pkg/fetch/hostsemaphore.go and FetchWithRetry of pkg/fetch/fetcher.go.
--   * Watch.State and Watch.Interval, Watch.Scheduler: pkg/watch/state.go and pkg/watch/scheduler.go.
--   * Chunk.Lines, Chunk.Parts and Chunk.Units: pkg/chunk/chunk.go on bytes, from structuralText and
--     fenceToken to atomicUnits, foldUmbrellaSections and mergeTinyParts; strings.TrimSpace is a
--     parameter.
--   * Filenames: SanitizeFilename of pkg/utils/sanitize.go, on bytes.
--   * Store: pkg/storage/badger_store.go over pkg/models. Badger's database is two tables (pages, images),
--     by the prefix of a key; a value is empty, undecodable or an entry. A transaction runs at once,
--     and a world says for each attempt what other goroutines did before it and whether it commits,
--     meets a conflict or fails; the key counter grows with the commit. Store.Database has the
--     operations, Store.Scan has RequeueIncomplete.
--   * Urls: pkg/parse/normalize.go, with net/url, net and strings as an interface (UrlOps).
--   * Queue: pkg/queue/priority_queue.go. Queue.Items has the methods of PriorityQueue; heap.Push and
--     heap.Pop are parameters that call them (HeapOps).
--   * Links: pkg/process/links.go, from the anchors that goquery finds to the queue.
--   * PageTask: processSinglePageTask of pkg/crawler/crawler.go. PageTask.State has what a task changes
--     and a monad of steps that go on, return or panic; PageTask.Steps and PageTask.Fetching its
--     helpers (handleSetupAndResumeCheck, acquireResources, fetchAndValidatePage, readBody and so on),
--     PageTask.Task the body and the deferred function. A world gives the answers of the code that it
--     calls. PageTask.Endings and PageTask.Body carry a predicate through the whole body.
--   * Stage: pkg/crawler/stage.go, on the live, staged and backup directories of the output and the
--     database. Any system call may fail; a crash is a world in which all fail from some call on.
--   * Run: how a crawl starts (Run.Start) and ends (Run.Finish: finish, checkLoss, commitStage) in
--     pkg/crawler/crawler.go. Run.Finish joins the counters of PageTask, the verdict of Crawler.Loss
--     and the swap of Stage.
--   * Sitemaps: pkg/sitemap/processor.go, its backlog (Sitemaps.Backlog), its marks, and what an index and a
--     URL set queue. Sitemaps.Processing has fetchSitemap with its slots, processSitemap and processOne.
--     The lists of `loc` values that encoding/xml finds are arguments.
--   * Semaphore: the interface of golang.org/x/sync/semaphore, which the budget and the pool call. Their
--     models take any semaphore that meets its laws, and `counting` is one that does.
--   * Prelude: lists, association lists for Go's maps, Go's int64 (`i64` wraps around), sorting.
--
-- Conventions. A time is a number of nanoseconds, a duration an integer of them. A map is an
-- association list with one entry for a key. What the code takes from outside (the clock, a random
-- number, a UUID, whether a write succeeds, the answer of an HTTP client) is an argument. Logs are left
-- out.
--
-- The counters of a crawl are natural numbers, since they count tasks by ones from 0 and no crawl
-- reaches 2 ^ 63 of them. A path that os.Stat cannot read for another reason than its absence is not
-- modelled.
--
-- Fuel. dbUpdate and renameRetry count down their ten and five attempts. The scan for attributes has one step more than the tag has bytes, and each step but the last
-- consumes one. The retry loop counts down the attempts that are left. Every other loop goes down a
-- list.
--
-- Not modelled: the goroutines of a crawl (its workers, the waiter, the garbage collection of the
-- database) and the output files that a page and a finished crawl write (pkg/crawler/output.go,
-- carry.go), of which the end of a crawl takes the effect as a parameter; HTML processing and the
-- detection of generators, the probe for sitemaps and the workers that process them, the crawl index on SQLite, the MCP protocol, the
-- command line and the configuration, as they are file and network access or calls of libraries for
-- the most part.
pub mod Prelude
pub mod Errors
pub mod Crawler
pub mod Jobs
pub mod Semaphore
pub mod PageBudget
pub mod Fetch
pub mod Watch
pub mod Chunk
pub mod Filenames
pub mod Urls
pub mod Queue
pub mod Links
pub mod PageTask
pub mod Stage
pub mod Run
pub mod Sitemaps
pub mod Store
pub mod Tests
