-- ===== src/Callback/Raw.antt =====
-- `Callback<void>` of src/module/Callback.h, and the callbacks for raw octets that src/Server.cpp and
-- src/remote/Connection.cpp call with every packet.
-- The value that a callable returns is not looked at, so that it has no result to store.
use iec104_python.Base.{
  ℕ, ◌%◌, ◌<◌, ◌≡◌, arith, Bool, true, false, if◌then◌else◌, List, Option, none, some, length, take,
  take-length,
}
use iec104_python.Text.{Text}
use iec104_python.Callback.{Called, raised, Callable, Callback, Parameter, unset, is_set, resets}

unfoldable pub complete_void : Called (Unit {0}) → Callback (Unit {0}) → Callback (Unit {0}) × Bool
unfolding unset
complete_void raised c = (unset c, false)
complete_void _ c = (record c { success = true }, true)

module _ (print : List Parameter → Text → Text) where
  abbrev invoke_void :
      (during : List (Option (Callable (Unit {0}))))
      → Option (Callable (Unit {0}))
      → Callback (Unit {0})
      → Callback (Unit {0}) × Bool
  invoke_void during none c = (c, false)
  invoke_void during (some f) c = complete_void f.run (resets print during c)

  unfoldable pub call_void :
      (during : List (Option (Callable (Unit {0}))))
      → Callback (Unit {0})
      → Callback (Unit {0}) × Bool
  unfolding complete_void resets
  call_void during c = invoke_void during c.callback c

  -- `onReceiveRaw` and `onSendRaw`: the octets that the callable gets, with a size of eight bits.
  unfoldable pub on_raw :
      (during : List (Option (Callable (Unit {0}))))
      → (msg : List ℕ) → (size : ℕ) → Callback (Unit {0})
      → Callback (Unit {0}) × Option (List ℕ)
  unfolding is_set call_void
  on_raw during msg size c =
      let called = (call_void during c).0 in
      if is_set c then (called, some (take (size % 256) msg)) else (c, none)

  pub record RawCallbacks : Type 0 where
    pub on_receive_raw : Callback (Unit {0})
    pub on_send_raw : Callback (Unit {0})

  unfoldable pub raw_message_handler :
      (during : List (Option (Callable (Unit {0}))))
      → (msg : List ℕ) → (size : ℕ) → (sent : Bool) → RawCallbacks
      → RawCallbacks × Option (List ℕ)
  unfolding on_raw
  raw_message_handler during msg size sent cs =
      let (sender, sent_octets) = on_raw during msg size cs.on_send_raw in
      let (receiver, received_octets) = on_raw during msg size cs.on_receive_raw in
      if sent
      then (record cs { on_send_raw = sender }, sent_octets)
      else (record cs { on_receive_raw = receiver }, received_octets)

  -- What the callback of one direction gets of a packet of at most 255 octets is the packet.
  raw_message_handler-whole :
      (during : List (Option (Callable (Unit {0})))) (msg : List ℕ) (cs : RawCallbacks)
      → length msg < 256
      → ((raw_message_handler during msg (length msg) true cs).1
          ≡ (if is_set cs.on_send_raw then some msg else none))
        × ((raw_message_handler during msg (length msg) false cs).1
            ≡ (if is_set cs.on_receive_raw then some msg else none))
  unfolding raw_message_handler on_raw
  raw_message_handler-whole during msg cs lt =
      let size : length msg % 256 ≡ length msg = omega (arith, lt) in
      (ground (arith, size, take-length msg), ground (arith, size, take-length msg))
