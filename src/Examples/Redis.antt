-- ===== src/Examples/Redis.antt =====
-- A Redis with what the queue uses of it, and jobs on its lists.
use notification_service.Base.{
  ◌≡◌, ◌≢◌, refl, ap, ◌∙◌, ℕ, suc, String, false, ◌==◌, Option, none, some, List, [], ◌∷◌, ◌++◌,
  arith, eqb, if◌then◌else◌, eq_refl,
}
use notification_service.Queue.Resp.{pos}
use notification_service.Queue.Jobs.{
  Redis, Reply, nil, failed, text, number, done, recover_processing_queue, consume_channel,
}
use notification_service.Queue.Jobs.Laws.{ListLaws, CounterLaws, moved, with_list}
use notification_service.Queue.Jobs.Recovery.{recover-restores}
use notification_service.Queue.Jobs.Settled.{consume-takes}
use notification_service.Queue.Limiter.Window.{grants, grants-exact}
use notification_service.Examples.Fixtures.{job}

record Store : Type 0 where
  lists : String → List String
  counters : String → ℕ

abbrev with_last : String → Option (List String × String) → Option (List String × String)
with_last x none = some ([], x)
with_last x (some (ys, y)) = some (x ∷ ys, y)

split_last : List String → Option (List String × String)
split_last [] = none
split_last (x ∷ xs) = with_last x (split_last xs)

split_last-append : (xs : List String) (x : String) → split_last (xs ++ x ∷ []) ≡ some (xs, x)
unfolding split_last
split_last-append [] x = refl
split_last-append (y ∷ ys) x = ap (with_last y) (split_last-append ys x)

abbrev move : String → String → Store → Option (List String × String) → Store × Reply
move source destination s none = (s, nil)
move source destination s (some (xs, x)) =
    (record s { lists = moved source destination xs x s.lists }, text x)

abbrev drop_head : String → String → Store → List String → Store × Reply
drop_head name payload s [] = (s, number (pos 0))
drop_head name payload s (x ∷ xs) =
    if x == payload
    then (record s { lists = with_list name xs s.lists }, number (pos 1))
    else (s, number (pos 0))

abbrev incremented : String → (String → ℕ) → String → ℕ
incremented name counters k = if k == name then suc (counters name) else counters k

send : List String → Store → Store × Reply
unfolding split_last
send [] s = (s, failed)
send (cmd ∷ []) s = (s, failed)
send (cmd ∷ (k ∷ [])) s =
    if cmd == "INCR"
    then (record s { counters = incremented k s.counters }, number (pos (suc (s.counters k))))
    else (s, number (pos 5))
send (cmd ∷ (a ∷ (b ∷ []))) s =
    if cmd == "RPOPLPUSH" then move a b s (split_last (s.lists a)) else (s, text "OK")
send (cmd ∷ (a ∷ (b ∷ (c ∷ [])))) s =
    if cmd == "BRPOPLPUSH" then move a b s (split_last (s.lists a)) else drop_head a c s (s.lists a)
send (cmd ∷ (a ∷ (b ∷ (c ∷ (d ∷ rest))))) s = (s, failed)

-- Payload j1 is the example's job.
abbrev redis : Redis
redis = record {
  State = Store;
  send = send;
  itoa = λ n. if eqb n 1 then "1" else "60";
  marshal = λ j. "j1";
  unmarshal = λ s. if s == "j1" then some job else none;
}

move-moves :
    (source destination : String) (s : Store) (xs : List String) (x : String)
    → s.lists source ≡ xs ++ x ∷ []
    → let (s', r) = move source destination s (split_last (s.lists source)) in
      (r ≡ text x) × ((k : String) → s'.lists k ≡ moved source destination xs x s.lists k)
move-moves source destination s xs x h =
    rw (ap split_last h ∙ split_last-append xs x) (refl, λ k. refl)

move-nil :
    (source destination : String) (s : Store)
    → s.lists source ≡ []
    → let (s', r) = move source destination s (split_last (s.lists source)) in
      (r ≡ nil) × ((k : String) → s'.lists k ≡ s.lists k)
unfolding split_last
move-nil source destination s h = rw (ap split_last h) (refl, λ k. refl)

drop_head-drops :
    (name payload : String) (s : Store) (xs : List String)
    → s.lists name ≡ payload ∷ xs
    → let (s', r) = drop_head name payload s (s.lists name) in
      (r ≡ number (pos 1)) × ((k : String) → s'.lists k ≡ with_list name xs s.lists k)
drop_head-drops name payload s xs h = rw (h, eq_refl payload) (refl, λ k. refl)

increment-counts :
    (name : String) (counters : String → ℕ) → incremented name counters name ≡ suc (counters name)
increment-counts name counters = rw (eq_refl name) refl

list_laws : ListLaws redis
unfolding send
list_laws = record {
  list = λ s. s.lists;
  rpoplpush_nil = move-nil;
  rpoplpush_moves = λ source destination s xs x apart h. move-moves source destination s xs x h;
  brpoplpush_moves =
      λ source destination timeout s xs x apart h. move-moves source destination s xs x h;
  lrem_head = drop_head-drops;
}

text-ne-failed : (t : String) → text t ≢ failed
text-ne-failed t e = cc e

counter_laws : CounterLaws redis
unfolding send
counter_laws = record {
  counter = λ s. s.counters;
  incr_counts = λ k s. (refl, increment-counts k s.counters);
  expire_keeps = λ k seconds s. (text-ne-failed "OK", refl);
  ttl_keeps = λ k s. refl;
}

-- Two jobs are being processed and one waits.
abbrev busy : Store
busy = record {
  lists = λ name.
      if name == "q" then "j3" ∷ [] else if name == "q:processing" then "j1" ∷ ("j2" ∷ []) else [];
  counters = λ k. 0;
}

recover-restores_example :
    let (s', n, r) = recover_processing_queue redis 3 "q" busy in
    (r ≡ done tt)
    × (n ≡ 2)
    × (s'.lists "q" ≡ "j1" ∷ ("j2" ∷ ("j3" ∷ [])))
    × (s'.lists "q:processing" ≡ [])
    × ((k : String)
        → (k == "q") ≡ false
        → (k == "q:processing") ≡ false
        → s'.lists k ≡ busy.lists k)
unfolding list_laws
recover-restores_example = recover-restores redis list_laws "q" 3 busy (omega arith)

abbrev waiting : Store
waiting = record busy { lists = λ name. if name == "q" then "j0" ∷ ("j1" ∷ []) else [] }

consume-takes_example :
    let (s', r) = consume_channel redis 1 "q" 0 waiting in
    (r ≡ done job)
    × (s'.lists "q" ≡ "j0" ∷ [])
    × ((k : String) → (k == "q") ≡ false → s'.lists k ≡ waiting.lists k)
unfolding list_laws
consume-takes_example = consume-takes redis list_laws "q" waiting ("j0" ∷ []) "j1" job 0 0 refl refl

-- Three calls, of which two are allowed.
grants-exact_example : grants redis "acme" 2 60 3 busy ≡ 2
unfolding counter_laws
grants-exact_example = grants-exact redis counter_laws "acme" 2 60 3 busy (omega arith) refl refl
