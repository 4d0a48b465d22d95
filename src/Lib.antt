-- ===== src/Lib.antt =====
-- The cat game backend: the commands with which players spend coins, furnish their rooms, meet in
-- battles, collect rewards, learn, submit answers and log in.
--
-- A command runs in a unit of work (app/db/unit_of_work.py): it opens a session, calls the
-- repositories (app/db/repositories.py) and commits once, or raises and loses what it did. The
-- commands on the economy carry a request id. They claim it in the table of executions, where
-- they also store their result for a later call with the same id. The other services (battles,
-- rewards, learning, grading, the rate limit) take a session: their functions here take the tables and
-- return the new ones, or an error, after which the tables are the old ones.
--
--   Base               shared names; integers, tests and lists over the native naturals
--   Core/Error         app/core/exceptions.py
--   Core/Outcome       chains of steps that may raise
--   Core/RequestHash   app/core/request_hash.py
--   Store/Rows         the rows of app/models, with the columns that the modelled code uses
--   Store/Table        a table is the list of its rows by primary key
--   Store/Session      app/db/session.py and app/db/unit_of_work.py: state passing with errors
--   Store/Users, Items, Cats, Assets, Placements, Executions
--                      one repository class of app/db/repositories.py each
--   Store/Atomic, Uncommitted
--                      what an action that raises leaves behind, and the rules for each action
--   Store/Claims, Inversion
--                      the claim of a request with its replay
--   Store/Consistent, Stock
--                      the invariant of the tables, and the stock of an item
--   Catalog            app/modules/game/catalog.py
--   Shop/Purchase      app/modules/shop/service.py
--   Shop/Consumables   app/modules/shop/consumables.py
--   Housing            app/modules/housing/service.py
--   Gacha              app/modules/gacha/service.py and app/modules/gacha/policy.py
--   Battle             app/modules/battle/service.py; Battle/Commands is a sequence of its calls
--   Rewards            app/modules/game/commands.py: attendance; Rewards/Daily: daily rewards
--   Rewards/Missions   app/modules/daily_mission/service.py
--   Learning/Tiers     app/modules/learning/tier.py
--   Learning/Presentation
--                      app/modules/learning/presentation.py
--   Learning/Proficiency
--                      app/modules/learning/proficiency.py: the measures
--   GameGacha          app/modules/game/gacha.py
--   Commands           the economy's commands, each in its unit of work
--   Grading            the tables of app/modules/grading/service.py
--   Grading/Checks, Creation
--                      `create_attempt` and `get_attempt`
--   Grading/Leases     `claim_next_attempt` and `claim_attempt`
--   Grading/Running    runners.py and test_cases.py beside it, and `grade_claimed_attempt`
--   Grading/Persisting `_persist_result`
--   Grading/Testing    `run_code_test`
--   Grading/Steps      sequences of what workers do
--   Cats               app/modules/cats/chat_policy.py; Cats/Memories, Chats, Reads: service.py
--                      beside it
--   Home               app/modules/game/commands.py: the active cat and the cats at home;
--                      Home/Settings: the settings, Learning/Reset: the reset of the learning
--   Identity/RateLimit app/modules/identity/rate_limit.py
--   Identity/Login     the throttling in app/modules/identity/router.py
--   Examples           runs on a small database
--
-- How the code is read:
--   * A transaction holds row locks from its first statement, so that commands on a player run one
--     after the other; one run is a function of the committed tables.
--   * Autoflush is off: objects that were added wait in the session until the commit, and a
--     lookup of an asset finds them there first (`_get_pending_asset`).
--   * Public ids and request ids are natural numbers. The database's UUID of a new row is a
--     function of its primary key; one sequence counts for all tables. It is part of the tables, so
--     that the numbers of a rolled-back transaction are used again.
--   * `scalar_one_or_none` is the first match, since the columns it selects by are unique.
--   * A coordinate is a whole number of units, of which `grid_unit` make a cell. Every finite set
--     of floats has such a unit.
--   * JSON, the UUID text and SHA-256 are the parameter `Digest`, and the columns `request_payload`
--     and `completed_at`, which no command reads, are left out.
--   * The draws of a gacha policy, which may be random, are a parameter of the call.
--   * The loop of `get_or_advance_tier` runs on fuel, of which three rounds are enough: a tier has at
--     most two promotions above it. Every other loop of the modelled code runs over a list.
--   * The sandboxes of the grading, `json.loads` and `ast.parse` are functions that return their
--     exceptions. A worker reads, runs the sandbox and stores in two
--     transactions; what others commit between them is a function on the tables.
--   * A time is a number of seconds, and the day of a time is a parameter. One time stands for the
--     readings of the clock in one call.
--   * Unicode, the regular expressions of the chat policy (TextTools) and the provider of the cats'
--     replies are parameters, and so is what others commit while the provider is asked.
--
-- Not modelled: the starter pack, the recommended tasks, the SQL sandbox, password hashes and
-- sessions. The other routers, migrations, remote services and the configuration stay outside.
pub mod Base
pub mod Core
pub mod Store
pub mod Catalog
pub mod Shop
pub mod Housing
pub mod Gacha
pub mod Battle
pub mod Identity
pub mod Rewards
pub mod Learning
pub mod GameGacha
pub mod Commands
pub mod Cats
pub mod Grading
pub mod Examples
pub mod Home
