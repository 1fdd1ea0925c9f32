-- ===== src/Client/EndCalls.antt =====
-- client.ts: the calls of callbacks for the end, and what one call of a callback adds to them.
use grpc_web.Prelude.{ℕ, ◌≡◌, refl, arith, ap, ◌∙◌, sym, Option, none, some, List, [], ◌∷◌, ◌++◌}
use grpc_web.Prelude.{append_assoc, append-nil, Text}
use grpc_web.Client.Types.{
  Environment, State, Action, Command, Event, Script, return, throw, call, headers, message, end,
  transport_start, metadata_refused, transport_send, transport_finish_send, transport_cancel,
  called, later_throw,
}
use grpc_web.Client.Requests.{
  record_action, start, start_with, send, finish_send, close, on_headers, on_message, on_end, obey,
}
use grpc_web.Client.Callbacks.{run_script, rethrow_later, call_callback}

abbrev pub end_call : {Md Resp : Type 0} → ℕ → Event Md Resp → List (ℕ × Event Md Resp)
end_call callback (headers md) = []
end_call callback (message res) = []
end_call callback (end code msg md) = (callback, end code msg md) ∷ []

-- The calls of callbacks for the end in a log, the oldest first.
abbrev pub ends_told : {Md Resp : Type 0} → List (Action Md Resp) → List (ℕ × Event Md Resp)
ends_told [] = []
ends_told (called callback event ∷ log) = ends_told log ++ end_call callback event
ends_told (transport_start md ∷ log) = ends_told log
ends_told (metadata_refused e ∷ log) = ends_told log
ends_told (transport_send bytes ∷ log) = ends_told log
ends_told (transport_finish_send ∷ log) = ends_told log
ends_told (transport_cancel ∷ log) = ends_told log
ends_told (later_throw e ∷ log) = ends_told log

module _ (E : Environment) where
  open E use {Metadata, Arg, Request, Response, User, react}

  -- `c'` is `c` with these ends told, and perhaps more callbacks registered.
  pub record Extends (c c' : State E) (ends : List (ℕ × Event Metadata Response)) : Type 0 where
    pub completed : c'.completed ≡ c.completed
    pub same : ends_told c'.log ≡ ends_told c.log ++ ends
    pub more : List ℕ
    pub longer : c'.on_end_callbacks ≡ c.on_end_callbacks ++ more

  Extends-refl : (c : State E) → Extends c c []
  Extends-refl c = record {
    completed = refl;
    same = sym (append-nil _);
    more = [];
    longer = sym (append-nil _);
  }

  Extends-trans :
      {c d e : State E} {xs ys : List (ℕ × Event Metadata Response)}
      → Extends c d xs
      → Extends d e ys
      → Extends c e (xs ++ ys)
  Extends-trans {c} {xs = xs} {ys = ys} a b = record {
    completed = b.completed ∙ a.completed;
    same = b.same ∙ ap (λ t. t ++ ys) a.same ∙ append_assoc (ends_told c.log) xs ys;
    more = a.more ++ b.more;
    longer =
        b.longer ∙ ap (λ t. t ++ b.more) a.longer ∙ append_assoc c.on_end_callbacks a.more b.more;
  }

  pub obey-Extends : (m : Command Arg Request) (c : State E) → Extends c (obey E m c).0 []
  unfolding obey start start_with send finish_send close on_headers on_message on_end
  obey-Extends (Command.on_headers x) c = record {
    completed = refl;
    same = sym (append-nil _);
    more = [];
    longer = sym (append-nil _);
  }
  obey-Extends (Command.on_message x) c = record {
    completed = refl;
    same = sym (append-nil _);
    more = [];
    longer = sym (append-nil _);
  }
  obey-Extends (Command.on_end x) c = record {
    completed = refl;
    same = sym (append-nil _);
    more = x ∷ [];
    longer = refl;
  }
  obey-Extends m c = record {
    completed = ground arith;
    same = ground (arith, append-nil (ends_told c.log));
    more = [];
    longer = ground (arith, append-nil c.on_end_callbacks);
  }

  run_script-Extends :
      (s : Script Arg Request User) (c : State E) → Extends c (run_script E s c).0 []
  unfolding run_script
  run_script-Extends (return u) c = record {
    completed = refl;
    same = sym (append-nil _);
    more = [];
    longer = sym (append-nil _);
  }
  run_script-Extends (throw u e) c = record {
    completed = refl;
    same = sym (append-nil _);
    more = [];
    longer = sym (append-nil _);
  }
  run_script-Extends (call m go_on) c =
      Extends-trans (obey-Extends m c) (run_script-Extends (go_on (obey E m c).1) (obey E m c).0)

  rethrow_later-Extends :
      (c : State E) (out : State E × Option Text)
      → Extends c out.0 []
      → Extends c (rethrow_later E out) []
  rethrow_later-Extends c (d, none) a = a
  rethrow_later-Extends c (d, some e) a = record {
    completed = a.completed;
    same = a.same;
    more = a.more;
    longer = a.longer;
  }

  pub call_callback-Extends :
      (callback : ℕ) (event : Event Metadata Response) (c : State E)
      → Extends c (call_callback E callback event c) (end_call callback event)
  unfolding call_callback
  call_callback-Extends callback event c =
      let d = record_action E (called callback event) c in
      let a = rethrow_later-Extends d _ (run_script-Extends (react callback event c.user) d) in
      record {
        completed = a.completed;
        same = a.same ∙ append-nil _;
        more = a.more;
        longer = a.longer;
      }
