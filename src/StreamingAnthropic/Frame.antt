-- ===== src/StreamingAnthropic/Frame.antt =====
-- The statements on the blocks change nothing else of the formatter.
use kiro_gateway_go.Common.{
  ℕ, Bool, true, false, String, Option, none, some, [], ◌∷◌, ◌≡◌, refl, ap, ◌∙◌, if◌then◌else◌,
}
use kiro_gateway_go.Common.Bytes.{Bytes}
use kiro_gateway_go.StreamingAnthropic.{
  BlockIndex, SseEvent, content_block_stop, Environment, Formatter, Output, Settings,
  close_thinking, close_text, open_thinking, open_text, with_blocks, stop_thinking, stop_text,
  start_thinking, start_text, close_open_blocks, send_text, send_thinking,
}
use kiro_gateway_go.StreamingAnthropic.Handle.{open_native_thinking}

-- The second formatter differs from the first in its blocks only.
abbrev pub Kept : Output → Output → Type 0
Kept a b = b.formatter ≡ record a.formatter { blocks = b.formatter.blocks }

pub Kept-trans : (a b c : Output) → Kept a b → Kept b c → Kept a c
Kept-trans a b c k l = l ∙ ap (λ (f : Formatter). record f { blocks = c.formatter.blocks }) k

with_blocks-Kept :
    (r : BlockIndex × Option ℕ) (event : ℕ → SseEvent) (o : Output) → Kept o (with_blocks r event o)
with_blocks-Kept (b, none) event o = refl
with_blocks-Kept (b, some idx) event o = refl

module _ (o : Output) where
  pub stop_thinking-Kept : Kept o (stop_thinking o)
  unfolding stop_thinking close_thinking
  stop_thinking-Kept = with_blocks-Kept (close_thinking o.formatter.blocks) content_block_stop o

  pub stop_text-Kept : Kept o (stop_text o)
  unfolding stop_text close_text
  stop_text-Kept = with_blocks-Kept (close_text o.formatter.blocks) content_block_stop o

  pub start_text-Kept : Kept o (start_text o)
  unfolding start_text open_text
  start_text-Kept = with_blocks-Kept (open_text o.formatter.blocks) _ o

  pub start_thinking-Kept : (signature : String) → Kept o (start_thinking signature o)
  unfolding start_thinking open_thinking
  start_thinking-Kept signature = with_blocks-Kept (open_thinking o.formatter.blocks) _ o

  pub send_text-Kept : (s : Bytes) → Kept o (send_text s o)
  unfolding send_text
  send_text-Kept [] = refl
  send_text-Kept (c ∷ s) = refl

  pub send_thinking-Kept : (s : Bytes) → Kept o (send_thinking s o)
  unfolding send_thinking
  send_thinking-Kept s = refl

  abbrev pub native_if : Bool → Output
  native_if c = if c then o else start_thinking "" (stop_text o)

module _ (o : Output) where
  pub native_if-Kept : (c : Bool) → Kept o (native_if o c)
  native_if-Kept true = refl
  native_if-Kept false =
      Kept-trans o (stop_text o) (start_thinking "" (stop_text o)) (stop_text-Kept o)
        (start_thinking-Kept (stop_text o) "")

  pub open_native_thinking-Kept :
      (env : Environment) (cfg : Settings) → Kept o (open_native_thinking env cfg o)
  unfolding open_native_thinking
  open_native_thinking-Kept env cfg = native_if-Kept o.formatter.blocks.thinking_open

pub close_open_blocks-Kept : (o : Output) → Kept o (close_open_blocks o)
unfolding close_open_blocks
close_open_blocks-Kept o =
    Kept-trans o (stop_thinking o) (stop_text (stop_thinking o)) (stop_thinking-Kept o)
      (stop_text-Kept (stop_thinking o))
