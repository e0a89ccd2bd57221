-- ===== src/Rpc/Handler/Examples.antt =====
-- A connection that subscribes to one topic and is then disconnected, and smaller runs.
use rust_api_stack.Base.{
  ℕ, suc, ◌≡◌, refl, inl, inr, Bool, true, false, Option, none, some, List, [], ◌∷◌, arith,
  if◌then◌else◌, nat_eq, Result, ok, Bool-cases,
}
use rust_api_stack.Base.Text.{Text, Text-eq, codes, text_eq, bytes, utf8}
use rust_api_stack.Base.Int.{pos, negsuc}
use rust_api_stack.Auth.{AuthError, AuthenticatedUser}
use rust_api_stack.Rpc.Types.{new_error}
use rust_api_stack.Rpc.Server.{ServerError, ServerResult, rpc}
use rust_api_stack.Rpc.Wire.{BidirectionalMessage, Frame, Codec, text_message}
use rust_api_stack.Rpc.Manager
use rust_api_stack.Rpc.Manager.{
  ConnectionInfo, Manager, default_limits, with_subscription_limits, add_connection, fetch_add,
  fetch_sub,
}
use rust_api_stack.Rpc.Context
use rust_api_stack.Rpc.Context.{
  ConnectionContext, ConnectionManager, reserve, mirror_and_insert, release_all_subscriptions,
  drop_topic, release, tell_manager,
}
use rust_api_stack.Rpc.Context.Counter.{IsAccounted}
use rust_api_stack.Rpc.Context.Mirror.{default_manager}
use rust_api_stack.Rpc.Handler.{
  Connection, MessageHandler, default_handle_subscribe, default_handle_unsubscribe,
  handle_websocket_message, handle_text_message, handle_bidirectional_message, subscribe_limits,
  check_subscription_limits,
}
use rust_api_stack.Rpc.Handler.Revalidation.{
  drop_subscriptions, revalidate_credentials, refresh_user, reauthorize, permissions_changed,
  same_set, is_close,
}
use rust_api_stack.Rpc.Handler.Authorized.{IsEntitledTo, revalidate-IsEntitled}
use rust_api_stack.Rpc.Handler.Lifecycle.{Action, Wake, disconnected, touch, next_interrupt}
use rust_api_stack.Rpc.Handler.Loop.{
  WebSocketHandler, Running, Round, inbound, stopped, act, act_all, woken, interrupted, supervise,
  send_frame, write, on_connection, touched, on_frame, on_inbound, on_event, step, rounds,
}
use rust_api_stack.Rpc.Handler.Run.{Schedule, serve, run}
use rust_api_stack.Rpc.Handler.Kept.{IsKeptByCallbacks}
use rust_api_stack.Rpc.Handler.Accounts.{
  HasAccount, default_handle_subscribe-HasAccount, default_handle_unsubscribe-HasAccount,
}
use rust_api_stack.Rpc.Handler.Teardown.{closes}
use rust_api_stack.Rpc.Handler.Ends.{
  IsEnd, rounds-disconnected, run-IsOver, HasCalls, run-disconnects_once,
}

abbrev alice : AuthenticatedUser ℕ
alice = record { user_id = codes "alice"; permissions = codes "news" ∷ []; metadata = none }

abbrev info : List Text → ConnectionInfo ℕ
info topics = record {
  id = 1;
  user = some alice;
  subscriptions = topics;
  metadata = 0;
  connected_at = pos 0;
}

-- Five slots are held by others.
abbrev context : Option (Manager ℕ ℕ) → List Text → ℕ → ConnectionContext ℕ (Manager ℕ ℕ)
context manager topics total = record {
  id = 1;
  info = info topics;
  closed = false;
  limits = default_limits;
  accounting = total;
  manager = manager;
}

abbrev connection : List Text → ℕ → Connection ℕ (Manager ℕ ℕ) ℕ
connection topics total = record { context = context none topics total; service = 0 }

abbrev allows : Text → Option (AuthenticatedUser ℕ) → Bool
allows topic user = text_eq topic (codes "news")

-- The service counts its disconnects.
abbrev plain_handler : MessageHandler ℕ (Manager ℕ ℕ) ℕ
plain_handler = record {
  handle_request = λ request c. (c, ok none);
  authorize_subscribe = λ topic c. (c, ok (allows topic c.context.info.user));
  handle_subscribe = λ topics c. (c, ok tt);
  handle_unsubscribe = λ topics c. (c, ok tt);
  on_connect = λ c. (c, ok tt);
  on_disconnect = λ reason c. (record c { service = suc c.service }, ok tt);
  on_ping = λ c. (c, ok tt);
  on_pong = λ c. (c, ok tt);
}

abbrev handler : MessageHandler ℕ (Manager ℕ ℕ) ℕ
handler = record plain_handler {
  handle_subscribe = default_handle_subscribe default_manager plain_handler;
  handle_unsubscribe = default_handle_unsubscribe default_manager plain_handler;
}

abbrev codec : Codec ℕ
codec = record {
  to_string = λ message. ok (codes "{}");
  message_from_str = λ text.
      if text_eq text (codes "sub")
      then some (BidirectionalMessage.subscribe (codes "news" ∷ codes "secret" ∷ []))
      else none;
  request_from_str = λ text. none;
  from_utf8 = λ bytes. some bytes;
}

-- A socket that counts its frames.
abbrev self : WebSocketHandler ℕ (Manager ℕ ℕ) ℕ ℕ
self = record {
  handler = handler;
  manager = default_manager;
  io = record { send = λ frame n. (suc n, ok tt) };
  codec = codec;
  max_message_size = 1000;
  on_permission_change = drop_subscriptions;
}

abbrev running : ℕ → List Text → ℕ → Running ℕ (Manager ℕ ℕ) ℕ ℕ
running frames topics total = record {
  connection = connection topics total;
  socket = frames;
  life = record { revalidation = true; idle_timeout = none; idle_deadline = 0 };
}

abbrev wake : List (Action ℕ) → Wake ℕ
wake actions = record { actions = actions; now = 0; tick = false; answer = ok alice }

abbrev round : Wake ℕ → Round ℕ
round w = record {
  wake = w;
  event = inbound (some (ok (Frame.text (codes "sub"))));
  handling = [];
  handled = 0;
  writing = [];
}

abbrev schedule : Schedule ℕ
schedule = record {
  connecting = [];
  establishing = [];
  events = round (wake []) ∷ round (wake (Action.close ∷ [])) ∷ [];
  queued = [];
  grace = 3;
}

-- Before the end: one topic is held, and one frame was sent.
abbrev closed_running : Running ℕ (Manager ℕ ℕ) ℕ ℕ
closed_running = record (running 1 (codes "news" ∷ []) 6) {
  connection = record (connection (codes "news" ∷ []) 6) {
    context = record (context none (codes "news" ∷ []) 6) { closed = true };
  };
}

served : serve self schedule (running 0 [] 5) ≡ stopped closed_running disconnected true
unfolding serve supervise on_connection write send_frame text_message rounds step woken act_all act
    next_interrupt interrupted on_event on_inbound on_frame touched touch handle_websocket_message
    handle_text_message handle_bidirectional_message subscribe_limits check_subscription_limits
    default_handle_subscribe Context.subscribe reserve mirror_and_insert Manager.subscribe fetch_add
    Context.close text_eq bytes utf8
served = refl

account : HasAccount 5 (connection [] 5)
unfolding HasAccount IsAccounted
account = (tt, refl, omega arith, λ p q. omega arith)

callbacks : IsKeptByCallbacks (HasAccount 5) handler
callbacks = record {
  requests = λ request c kept. kept;
  authorizes = λ topic c kept. kept;
  subscribes =
      default_handle_subscribe-HasAccount 5 default_manager plain_handler (λ topic c kept. kept);
  unsubscribes = default_handle_unsubscribe-HasAccount 5 default_manager plain_handler;
  connects = λ c kept. kept;
  pings = λ c kept. kept;
  pongs = λ c kept. kept;
}

run-IsOver_example :
    (last : Running ℕ (Manager ℕ ℕ) ℕ ℕ) × (result : ServerResult ℕ (Unit {0})) × (run self schedule
        (running 0 [] 5)
      ≡ some (last, result))
    × IsEnd self 5 (serve self schedule (running 0 [] 5)) last result
unfolding closes
run-IsOver_example =
    run-IsOver self 5 schedule (running 0 [] 5) callbacks (λ reason c. refl) account refl

topics-counting :
    (n : ℕ) (topics : List Text) (c : Connection ℕ (Manager ℕ ℕ) ℕ)
    → c.service ≡ n
    → (default_handle_subscribe default_manager plain_handler topics c).0.service ≡ n
unfolding default_handle_subscribe
topics-counting n [] c kept = kept
topics-counting n (topic ∷ topics) c kept = elim (Bool-cases (text_eq topic (codes "news"))) [
  | inl e ↦ rw e (
      topics-counting n topics
        (record c { context = (Context.subscribe default_manager topic c.context).0 }) kept)
  | inr e ↦ rw e (topics-counting n topics c kept)
]

counting : (n : ℕ) → IsKeptByCallbacks (HasCalls (λ count. count) n) handler
unfolding default_handle_unsubscribe
counting n = record {
  requests = λ request c kept. kept;
  authorizes = λ topic c kept. kept;
  subscribes = topics-counting n;
  unsubscribes = λ topics c kept. kept;
  connects = λ c kept. kept;
  pings = λ c kept. kept;
  pongs = λ c kept. kept;
}

run-disconnects_once_example :
    (last : Running ℕ (Manager ℕ ℕ) ℕ ℕ) × (result : ServerResult ℕ (Unit {0})) × (run self schedule
        (running 0 [] 5)
      ≡ some (last, result))
    × (last.connection.service ≡ 1)
run-disconnects_once_example =
    run-disconnects_once self (λ count. count) schedule (running 0 [] 5) counting (λ reason c. refl)
      closed_running disconnected true served

rounds-disconnected_example :
    rounds self (round (wake (Action.close ∷ [])) ∷ []) (running 1 (codes "news" ∷ []) 6)
    ≡ stopped
        (woken self (wake (Action.close ∷ [])) (running 1 (codes "news" ∷ []) 6))
        disconnected
        true
unfolding closes
rounds-disconnected_example =
    rounds-disconnected self (round (wake (Action.close ∷ []))) [] (running 1 (codes "news" ∷ []) 6)
      refl

abbrev answer : Result AuthError (AuthenticatedUser ℕ)
answer = ok alice

revalidate-IsEntitled_example :
    (user : AuthenticatedUser ℕ) × (answer ≡ ok user)
    × IsEntitledTo default_manager handler allows
        (some user)
        (revalidate_credentials default_manager handler drop_subscriptions answer
          (connection (codes "secret" ∷ codes "news" ∷ []) 7)).0
unfolding revalidate_credentials reauthorize permissions_changed same_set is_close text_eq
    refresh_user Context.set_user
revalidate-IsEntitled_example =
    revalidate-IsEntitled default_manager handler allows (λ topic c. (refl, λ allowed e. cc))
      drop_subscriptions answer (connection (codes "secret" ∷ codes "news" ∷ []) 7) refl

-- A handler that passes off an error of its own as missing authentication.
abbrev reserved : ServerError ℕ
reserved = rpc (new_error (negsuc 32000) (codes "log in") (some 0))
