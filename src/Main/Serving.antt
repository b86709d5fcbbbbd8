-- ===== src/Main/Serving.antt =====
-- src/rust/gdnd/gdnd/src/main.rs: what the program starts beside its loop. These are the log, the task
-- that waits for a signal, and the server of the metrics. The network, the registry of the metrics and
-- the filters of the log are other crates'.
pub mod Response
use Prim.Native.String.{len}
use gpu_dead_node_detector.Common.{
  String, Bool, List, ◌∷◌, [], Option, none, some, get_or, Result, ok, err, Effect, ℕ, concat,
  decimal, result_cases, true,
}
use gpu_dead_node_detector.Device.{IoError}
use gpu_dead_node_detector.Scheduler.{Event, shutdown_changed}

-- A subscriber of the log: what passes its filter is written as JSON, or as text.
pub record Subscriber (F : Type 0) : Type 0 where
  pub filter : F
  pub json : Bool

-- The filter of the environment is taken where there is a valid one, else that of the log level.
unfoldable pub init_logging : {F : Type 0} → Option F → (String → F) → String → Bool → Subscriber F
init_logging from_env new_filter log_level json_format = record {
  filter = get_or from_env (new_filter log_level);
  json = json_format;
}

pub data Signal : Type 0 where
  ctrl_c terminate : Signal

-- The task that `main` spawns, where the handlers of the signals could be installed: the first signal
-- sends `true` on the shutdown channel, once.
unfoldable pub on_signals : List Signal → List Event
on_signals [] = []
on_signals (signal ∷ later) = shutdown_changed true ∷ []

-- The response to a request, whatever it asks for; `len` is the number of bytes.
unfoldable pub metrics_response : String → String
metrics_response metrics_output = concat (
    "HTTP/1.1 200 OK\r\nContent-Type: text/plain; charset=utf-8\r\nContent-Length: "
    ∷ decimal (len metrics_output)
    ∷ "\r\n\r\n"
    ∷ metrics_output
    ∷ [])

-- A connection, and a TCP listener on a port.
pub record Socket (W : Type 0) : Type 0 where
  pub read : Effect W IoError String
  pub write_all : String → Effect W IoError (Unit {0})

module _ {W : Type 0} where
  -- The task of one connection; `gather` is the text that the registry encodes, which may fail.
  unfoldable pub answer_request : (W → Option String × W) → Socket W → W → W
  unfolding metrics_response
  answer_request gather socket w =
      let (request, v) = socket.read w in
      let (text, u) = gather v in (socket.write_all (metrics_response (get_or text "")) u).1

  -- The loop, over what `accept` answers, with each task run before the next connection; it ends with
  -- the first error of `accept`, and has not ended where there is none.
  unfoldable pub serve :
      (W → Option String × W) → List (Result IoError (Socket W)) → W → Option IoError × W
  unfolding answer_request
  serve gather [] w = (none, w)
  serve gather (ok socket ∷ accepted) w = serve gather accepted (answer_request gather socket w)
  serve gather (err e ∷ accepted) w = (some e, w)

  -- `bind` answers with what its listener will accept.
  unfoldable pub start_metrics_server :
      (ℕ → Effect W IoError (List (Result IoError (Socket W))))
      → (W → Option String × W)
      → ℕ
      → W
      → Option IoError × W
  unfolding serve
  start_metrics_server bind gather port w =
      let (bound, v) = bind port w in
      result_cases (λ accepted. serve gather accepted v) (λ e. (some e, v)) bound
