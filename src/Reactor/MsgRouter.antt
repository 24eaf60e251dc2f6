-- ===== src/Reactor/MsgRouter.antt =====
-- class msg_router (lars_reactor/include/message.h): which callback a message id is brought to. `C`
-- are the callbacks and `A` what is registered with them.
pub mod Registered
use lars.Base.{ℕ, Bool, true, false, List, [], ◌∷◌, Option, none, some, if◌then◌else◌}
use lars.Base.Dict.{Dict, lookup, insert, has_key}
use lars.Reactor.ReactorBuf.{Ret, minus_one, ret}

pub record MsgRouter (C A : Type 0) : Type 0 where
  pub router : Dict C
  pub args : Dict A

-- A call that the router makes.
pub record Handled (C A : Type 0) : Type 0 where
  pub callback : C
  pub user_data : Option A
  pub msgid : ℕ
  pub body : List ℕ

module _ {C A : Type 0} where
  abbrev pub new_msg_router : MsgRouter C A
  new_msg_router = record { router = []; args = [] }

  unfoldable pub register_msg_router : ℕ → C → A → MsgRouter C A → Ret × MsgRouter C A
  register_msg_router msgid msg_cb user_data r =
      if has_key msgid r.router then (minus_one, r) else (
        ret 0,
        record { router = insert msgid msg_cb r.router; args = insert msgid user_data r.args },
      )

  -- `call`; `_args[msgid]` without an entry is a null pointer.
  unfoldable pub call : ℕ → List ℕ → MsgRouter C A → Option (Handled C A)
  call msgid body r = elim (lookup msgid r.router) [
    | none ↦ none
    | some callback ↦ some (record {
      callback = callback;
      user_data = lookup msgid r.args;
      msgid = msgid;
      body = body;
    })
  ]
