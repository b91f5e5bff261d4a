-- ===== src/Channel.antt =====
-- `Channel<T>` of include/flowcoro/channel.h with the coroutines that use it. Each function below
-- is one section that the source runs under the channel's mutex; the sections of different
-- coroutines interleave in any order. `schedule_resume` of include/flowcoro/coroutine_manager.h
-- makes a waiting coroutine runnable: here it moves it to a `woken` place.
pub mod Order
pub mod Bounds
pub mod Waiters
pub mod Wakeups
mod Tests
use flowcoro.Base.{
  ℕ, Bool, true, false, not, ◌&&◌, ◌||◌, Option, none, some, List, [], ◌∷◌, ◌++◌, length, ltb, leb,
  ◌==◌, if◌then◌else◌, update,
}

-- Where a coroutine stands between its sections.
pub data Place (A : Type 0) : Type 0 where
  idle : Place A
  send_parking : A → Place A  -- before `SendAwaiter::await_suspend`
  send_waiting : A → Place A  -- its handle is in `send_waiters`
  send_woken : A → Place A  -- before `SendAwaiter::await_resume`
  recv_parking : Place A
  recv_waiting : Place A
  recv_woken : Place A

-- `ChannelState`
pub record Channel (A : Type 0) : Type 0 where
  pub buffer : List A
  pub capacity : ℕ
  pub closed : Bool
  pub send_waiters : List ℕ
  pub recv_waiters : List ℕ

pub record System (A : Type 0) : Type 0 where
  pub channel : Channel A
  pub open channel use *
  pub place : ℕ → Place A

-- What a section tells its coroutine.
pub data Outcome (A : Type 0) : Type 0 where
  accepted : A → Outcome A  -- `send` returns true
  refused : A → Outcome A  -- `send` returns false
  delivered : A → Outcome A  -- `recv` returns the item
  nothing : Outcome A  -- `recv` returns nullopt
  goes_on : Outcome A  -- no result yet

module _ {A : Type 0} where
  pub init : ℕ → System A
  init cap = record {
    channel = record {
      buffer = [];
      capacity = cap;
      closed = false;
      send_waiters = [];
      recv_waiters = [];
    };
    place = λ _. idle;
  }

  -- `schedule_resume` on a handle that a waiter queue held.
  pub woken : Place A → Place A
  woken (send_waiting v) = send_woken v
  woken recv_waiting = recv_woken
  woken p = p

  pub wake : (ℕ → Place A) → ℕ → ℕ → Place A
  wake place w = update place w (woken (place w))

  pub wake_all : (ℕ → Place A) → List ℕ → ℕ → Place A
  wake_all place [] = place
  wake_all place (w ∷ ws) = wake_all (wake place w) ws

  -- `send` and `recv` wake the waiter at the front of the other side's queue, if there is one.
  pub wake_receiver : System A → System A
  wake_receiver s = elim s.recv_waiters [
    | [] ↦ s
    | w ∷ ws ↦ record { channel = record s.channel { recv_waiters = ws }; place = wake s.place w }
  ]

  pub wake_sender : System A → System A
  wake_sender s = elim s.send_waiters [
    | [] ↦ s
    | w ∷ ws ↦ record { channel = record s.channel { send_waiters = ws }; place = wake s.place w }
  ]

  abbrev pub enqueue : System A → A → System A
  enqueue s v = record s { channel = record s.channel { buffer = s.buffer ++ (v ∷ []) } }

  abbrev pub moves : System A → ℕ → Place A → System A
  moves s i p = record s { place = update s.place i p }

  -- `send`, up to its return or to the await.
  pub send : System A → ℕ → A → Outcome A × System A
  unfolding wake_receiver
  send s i v =
      if s.closed
      then (refused v, s)
      else if (s.capacity == 0) || ltb (length s.buffer) s.capacity
      then (accepted v, wake_receiver (enqueue s v))
      else (goes_on, moves s i (send_parking v))

  -- `SendAwaiter::await_suspend`
  pub send_suspend : System A → ℕ → A → Outcome A × System A
  send_suspend s i v =
      if not s.closed && leb s.capacity (length s.buffer)
      then (
        goes_on,
        record {
          channel = record s.channel { send_waiters = s.send_waiters ++ (i ∷ []) };
          place = update s.place i (send_waiting v);
        },
      )
      else (goes_on, moves s i (send_woken v))

  -- `SendAwaiter::await_resume`
  pub send_resume : System A → ℕ → A → Outcome A × System A
  send_resume s i v =
      if s.closed
      then (refused v, moves s i idle)
      else if ltb (length s.buffer) s.capacity
      then (accepted v, moves (enqueue s v) i idle)
      else (refused v, moves s i idle)

  -- `recv`, up to its return or to the await.
  pub recv : System A → ℕ → Outcome A × System A
  unfolding wake_sender
  recv s i = elim s.buffer [
    | v ∷ rest ↦
        (delivered v, wake_sender (record s { channel = record s.channel { buffer = rest } }))
    | [] ↦ if s.closed then (nothing, s) else (goes_on, moves s i recv_parking)
  ]

  -- `RecvAwaiter::await_suspend`
  pub recv_suspend : System A → ℕ → Outcome A × System A
  recv_suspend s i = elim s.buffer [
    | [] ↦ if s.closed then (goes_on, moves s i recv_woken) else (
      goes_on,
      record {
        channel = record s.channel { recv_waiters = s.recv_waiters ++ (i ∷ []) };
        place = update s.place i recv_waiting;
      },
    )
    | _ ∷ _ ↦ (goes_on, moves s i recv_woken)
  ]

  -- `RecvAwaiter::await_resume`
  pub recv_resume : System A → ℕ → Outcome A × System A
  recv_resume s i = elim s.buffer [
    | v ∷ rest ↦
        (delivered v, moves (record s { channel = record s.channel { buffer = rest } }) i idle)
    | [] ↦ (nothing, moves s i idle)
  ]

  -- `close`: both queues are emptied, senders first.
  pub close : System A → System A
  unfolding wake_all
  close s = record {
    channel = record s.channel { closed = true; send_waiters = []; recv_waiters = [] };
    place = wake_all (wake_all s.place s.send_waiters) s.recv_waiters;
  }

-- What can happen next. An event that its coroutine is not in the place for does nothing.
pub data Event (A : Type 0) : Type 0 where
  sends : ℕ → A → Event A
  receives : ℕ → Event A
  continues : ℕ → Event A
  closes : Event A

module _ {A : Type 0} where
  pub continue : Place A → System A → ℕ → Outcome A × System A
  unfolding send_suspend send_resume recv_suspend recv_resume
  continue idle s i = (goes_on, s)
  continue (send_parking v) s i = send_suspend s i v
  continue (send_waiting v) s i = (goes_on, s)
  continue (send_woken v) s i = send_resume s i v
  continue recv_parking s i = recv_suspend s i
  continue recv_waiting s i = (goes_on, s)
  continue recv_woken s i = recv_resume s i

  pub start : Place A → System A → Outcome A × System A → Outcome A × System A
  start idle s begun = begun
  start p s begun = (goes_on, s)

  pub step : System A → Event A → Outcome A × System A
  unfolding start continue send recv close
  step s (sends i v) = start (s.place i) s (send s i v)
  step s (receives i) = start (s.place i) s (recv s i)
  step s (continues i) = continue (s.place i) s i
  step s closes = (goes_on, close s)

  pub run : System A → List (Event A) → List (Outcome A) × System A
  unfolding step
  run s [] = ([], s)
  run s (e ∷ es) = let (out, s') = step s e in let (outs, t) = run s' es in (out ∷ outs, t)
