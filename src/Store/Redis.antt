-- ===== src/Store/Redis.antt =====
-- The Redis server behind go-redis, which the store package calls: an interface of the commands in
-- use, and what their documentation says of a command that is answered. Times are milliseconds of the
-- server's clock. An error is an error reply or no reply; nothing is assumed of the state after one.
use dorian_back_end.Prelude.{
  ℕ, ◌+◌, ◌-◌, ◌≤◌, ◌≡◌, Option, none, some, ℤ, pos, negsuc, ltb, if◌then◌else◌,
}
use dorian_back_end.Text.{Text, ◌is◌}
use dorian_back_end.Action.{Action, ok}

-- What a key holds: nothing, or a value with the time at which it expires.
pub data Cell : Type 0 where
  absent : Cell
  cell : ℕ → Option ℕ → Cell

abbrev pub Keyspace : Type 0
Keyspace = Text → Cell

abbrev pub put : Keyspace → Text → Cell → Keyspace
put m k c j = if k is j then c else m j

-- What a command finds at a time: a key that has expired is not there.
abbrev pub live : ℕ → Cell → Cell
live now absent = absent
live now (cell v none) = cell v none
live now (cell v (some e)) = if ltb now e then cell v (some e) else absent

-- INCR counts from 0 and keeps the expiry.
abbrev pub bumped : Cell → Cell
bumped absent = cell 1 none
bumped (cell v e) = cell (v + 1) e

-- The reply of INCR.
abbrev pub value : Cell → ℕ
value absent = 0
value (cell v e) = v

-- EXPIRE has no effect on a key that is not there.
abbrev pub expiring : ℕ → Cell → Cell
expiring e absent = absent
expiring e (cell v old) = cell v (some e)

-- The reply of PTTL: -2 without a key, -1 without an expiry.
abbrev pub remaining : ℕ → Cell → ℤ
remaining now absent = negsuc 1
remaining now (cell v none) = negsuc 0
remaining now (cell v (some e)) = if ltb now e then pos (e - now) else negsuc 1

-- `clock` is the time of the last command: any time may pass before the next one.
pub record Redis : Type 1 where
  pub State : Type 0
  pub view : State → Keyspace
  pub clock : State → ℕ
  pub pttl : Text → Action State ℤ
  pub incr : Text → Action State ℕ
  pub expire : Text → ℕ → Action State (Unit {0})
  pub del : Text → Action State (Unit {0})
  -- MULTI; SET lock 1 with an expiry; DEL counter; EXEC
  pub set_and_del : Text → ℕ → Text → Action State (Unit {0})

pub record IsDocumented (r : Redis) : Type 1 where
  pub pttl_ok :
      (k : Text) (s : r.State) (v : ℤ) (s' : r.State)
      → r.pttl k s ≡ (ok v, s')
      → (r.clock s ≤ r.clock s')
        × (v ≡ remaining (r.clock s') (r.view s k))
        × (r.view s' ≡ r.view s)
  pub incr_ok :
      (k : Text) (s : r.State) (n : ℕ) (s' : r.State)
      → r.incr k s ≡ (ok n, s')
      → (r.clock s ≤ r.clock s')
        × (n ≡ value (live (r.clock s') (r.view s k)) + 1)
        × (r.view s' ≡ put (r.view s) k (bumped (live (r.clock s') (r.view s k))))
  pub expire_ok :
      (k : Text) (d : ℕ) (s : r.State) (s' : r.State)
      → r.expire k d s ≡ (ok tt, s')
      → (r.clock s ≤ r.clock s')
        × (r.view s'
            ≡ put (r.view s) k (expiring (r.clock s' + d) (live (r.clock s') (r.view s k))))
  pub del_ok :
      (k : Text) (s s' : r.State)
      → r.del k s ≡ (ok tt, s')
      → (r.clock s ≤ r.clock s') × (r.view s' ≡ put (r.view s) k absent)
  pub set_and_del_ok :
      (lock : Text) (d : ℕ) (counter : Text) (s s' : r.State)
      → r.set_and_del lock d counter s ≡ (ok tt, s')
      → (r.clock s ≤ r.clock s')
        × (r.view s' ≡ put (put (r.view s) lock (cell 1 (some (r.clock s' + d)))) counter absent)
