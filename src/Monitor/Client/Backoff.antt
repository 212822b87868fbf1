-- ===== src/Monitor/Client/Backoff.antt =====
-- How long the client waits between connections.
use quake_mesh.Base.{◌≡◌, refl, ap, ℕ, List, [], ◌∷◌, Option}
use quake_mesh.Management.{ManagementEvent}
use quake_mesh.Monitor.Client.{Client, Library, run, run_from, run_once}

-- The waits of a number of rounds, at 32 seconds each.
abbrev pub long_waits : List (List (Option ManagementEvent)) → List ℕ
long_waits [] = []
long_waits (messages ∷ rounds) = 32 ∷ long_waits rounds

run_from-long :
    (lib : Library) (rounds : List (List (Option ManagementEvent))) (c : Client)
    → (run_from lib 32 rounds c).0 ≡ long_waits rounds
unfolding run_from
run_from-long lib [] c = refl
run_from-long lib (messages ∷ rounds) c =
    ap (λ l. 32 ∷ l) (run_from-long lib rounds (run_once lib messages c))

-- The wait after each of the first five connections that end doubles from one second to 16, and the
-- wait after every later one is 32 seconds, whatever those connections read before they ended.
pub run-waits :
    (lib : Library) (a b c d e : List (Option ManagementEvent))
    (rounds : List (List (Option ManagementEvent))) (client : Client)
    → (run lib (a ∷ b ∷ c ∷ d ∷ e ∷ rounds) client).0 ≡ 1 ∷ 2 ∷ 4 ∷ 8 ∷ 16 ∷ long_waits rounds
unfolding run run_from
run-waits lib a b c d e rounds client =
    ap (λ l. 1 ∷ 2 ∷ 4 ∷ 8 ∷ 16 ∷ l)
      (run_from-long lib rounds
        (run_once lib e (run_once lib d (run_once lib c (run_once lib b (run_once lib a client))))))
