-- ===== src/StreamingAnthropic/Drive.antt =====
-- internal/routesanthropic/stream.go: `drivePipeline`, the loop that reads the body of a response of
-- Kiro and writes the events of the Anthropic dialect. The chunks are what the reads give; a failing
-- write and the flushing are left out. `none` stands for the panic of the pipeline.
use kiro_gateway_go.Common.{Bool, true, false, Option, none, some, List, [], ◌∷◌}
use kiro_gateway_go.Common.Bytes.{Bytes}
use kiro_gateway_go.Parsers.ToolCalls.{Library}
use kiro_gateway_go.StreamingCore.{KiroEvent}
use kiro_gateway_go.StreamingCore.Pipeline.{Pipeline}
use kiro_gateway_go.StreamingCore.Pipeline as Pipeline
use kiro_gateway_go.StreamingAnthropic.{Environment, Formatter, Output, Settings}
use kiro_gateway_go.StreamingAnthropic.Handle.{emit_message_start, handle_all}
use kiro_gateway_go.StreamingAnthropic.Finish.{finish}

-- How the reading of the body ended.
pub data Ending : Type 0 where
  end_of_file read_error : Ending

-- What was written, and whether an error is returned.
pub record Driven : Type 0 where
  pub output : Output
  pub failed : Bool

module _ (l : Library) (extract_usage_raw : Bytes → Option Bytes) (env : Environment)
    (cfg : Settings) where
  -- One read, whose bytes are handled if there are any.
  unfoldable pub drive_chunk : Bytes → Pipeline × Output → Pipeline × Output
  unfolding handle_all
  drive_chunk [] (p, o) = (p, o)
  drive_chunk (c ∷ chunk) (p, o) =
      let (q, es) = Pipeline.feed l extract_usage_raw p (c ∷ chunk) in (q, handle_all env cfg es o)

  unfoldable pub drive_chunks : List Bytes → Pipeline × Output → Pipeline × Output
  unfolding drive_chunk
  drive_chunks [] s = s
  drive_chunks (chunk ∷ chunks) s = drive_chunks chunks (drive_chunk chunk s)

  -- Behind the loop.
  abbrev pub conclude : Output → Option (Pipeline × List KiroEvent) → Option Driven
  conclude o none = none
  conclude o (some (q, es)) =
      some (record { output = finish env (handle_all env cfg es o); failed = false })

  unfoldable pub drive_pipeline : Pipeline → Formatter → List Bytes → Ending → Option Driven
  unfolding emit_message_start drive_chunks
  drive_pipeline pipeline formatter chunks ending =
      let start = emit_message_start env cfg (record { formatter = formatter; written = [] }) in
      let (p, o) = drive_chunks chunks (pipeline, start) in
      elim ending [
        | read_error ↦ some (record { output = o; failed = true })
        | end_of_file ↦ conclude o (Pipeline.finish l p)
      ]
