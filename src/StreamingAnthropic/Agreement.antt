-- ===== src/StreamingAnthropic/Agreement.antt =====
-- `Handle` keeps what the formatter counts and collects in agreement with its client.
use kiro_gateway_go.Common.{
  ℕ, ◌+◌, Bool, true, false, String, [], ◌++◌, ◌≡◌, inl, inr, refl, sym, ap, ◌∙◌, subst,
}
use kiro_gateway_go.Common.Bytes.{Bytes}
use kiro_gateway_go.Json.{Fields}
use kiro_gateway_go.StreamingCore.{ToolUseData}
use kiro_gateway_go.StreamingAnthropic.{
  ThinkingHandling, as_reasoning_content, include_as_text, strip, BlockIndex, Environment,
  Formatter, Output, reserve_tool_block, close_open_blocks,
}
use kiro_gateway_go.StreamingAnthropic.Handle.{
  handle_content, thinking_as_text, emit_tool_use_block, tool_id, handle_tool_use,
}
use kiro_gateway_go.StreamingAnthropic.Conforms.{Closed}
use kiro_gateway_go.StreamingAnthropic.Handled.{
  Ready, thinking_as_text-InText, thinking_as_text-Kept, close_open_blocks-Closed,
  emit_tool_use_block-Closed,
}
use kiro_gateway_go.StreamingAnthropic.Frame.{Kept, close_open_blocks-Kept}

-- The client has the text and the thinking that the mode promises.
abbrev pub Texts : ThinkingHandling → Bytes → Bytes → Formatter → Type 0
Texts as_reasoning_content t th f = (t ≡ f.full_content) × (th ≡ f.full_thinking_content)
Texts include_as_text t th f = th ≡ []
Texts strip t th f = (t ≡ f.full_content) × (th ≡ [])

-- In the mode that shows thinking blocks, no text block is open before the first content.
abbrev pub Quiet : ThinkingHandling → Bool → BlockIndex → Type 0
Quiet as_reasoning_content false b = b.text_open ≡ false
Quiet _ _ b = Unit

pub record Agrees (h : ThinkingHandling) (seen : Bool) (o : Output) : Type 0 where
  pub text_read : Bytes
  pub thinking_read : Bytes
  pub tools_read : ℕ
  pub ready : Ready o text_read thinking_read tools_read
  pub tools : tools_read ≡ o.formatter.tool_block_count
  pub texts : Texts h text_read thinking_read o.formatter
  pub quiet : Quiet h seen o.formatter.blocks

pub closed-Quiet :
    (h : ThinkingHandling) (seen : Bool) (b : BlockIndex) → b.text_open ≡ false → Quiet h seen b
closed-Quiet as_reasoning_content false b e = e
closed-Quiet as_reasoning_content true b e = tt
closed-Quiet include_as_text seen b e = tt
closed-Quiet strip seen b e = tt

pub seen-Quiet : (h : ThinkingHandling) (b : BlockIndex) → Quiet h true b
seen-Quiet as_reasoning_content b = tt
seen-Quiet include_as_text b = tt
seen-Quiet strip b = tt

-- `Texts` reads two fields only.
pub Texts-same :
    (h : ThinkingHandling) (t th : Bytes) (f g : Formatter)
    → f.full_content ≡ g.full_content
    → f.full_thinking_content ≡ g.full_thinking_content
    → Texts h t th f
    → Texts h t th g
Texts-same as_reasoning_content t th f g e e' k = (k.0 ∙ e, k.1 ∙ e')
Texts-same include_as_text t th f g e e' k = k
Texts-same strip t th f g e e' k = (k.0 ∙ e, k.1)

pub Texts-more :
    (h : ThinkingHandling) (t th s : Bytes) (f : Formatter)
    → Texts h t th f
    → Texts h (t ++ s) th (record f { full_content = f.full_content ++ s })
Texts-more as_reasoning_content t th s f k = (ap (λ x. x ++ s) k.0, k.1)
Texts-more include_as_text t th s f k = k
Texts-more strip t th s f k = (ap (λ x. x ++ s) k.0, k.1)

-- The events write `o'` where the formatter was `o`, and then only blocks have changed.
pub agree :
    (h : ThinkingHandling) (seen : Bool) (o r : Output) (t th : Bytes) (n : ℕ)
    → Kept o r
    → Ready r t th n
    → n ≡ o.formatter.tool_block_count
    → Texts h t th o.formatter
    → Quiet h seen r.formatter.blocks
    → Agrees h seen r
agree h seen o r t th n kept ready tools texts quiet = record {
  text_read = t;
  thinking_read = th;
  tools_read = n;
  ready = ready;
  tools = tools ∙ sym (ap (λ (f : Formatter). f.tool_block_count) kept);
  texts =
      Texts-same h t th o.formatter r.formatter (sym (ap (λ (f : Formatter). f.full_content) kept))
        (sym (ap (λ (f : Formatter). f.full_thinking_content) kept)) texts;
  quiet = quiet;
}

-- Fields that the agreement does not read may change.
pub agree_same :
    (h : ThinkingHandling) (seen : Bool) (o : Output) (f : Formatter)
    → o.formatter.blocks ≡ f.blocks
    → o.formatter.tool_block_count ≡ f.tool_block_count
    → o.formatter.full_content ≡ f.full_content
    → o.formatter.full_thinking_content ≡ f.full_thinking_content
    → Agrees h seen o
    → Agrees h seen (record o { formatter = f })
agree_same h seen o f blocks count same same' a = record {
  text_read = a.text_read;
  thinking_read = a.thinking_read;
  tools_read = a.tools_read;
  ready =
      subst
        (λ b.
          Ready (record o { formatter = record f { blocks = b } }) a.text_read a.thinking_read
            a.tools_read)
        blocks a.ready;
  tools = a.tools ∙ count;
  texts = Texts-same h a.text_read a.thinking_read o.formatter f same same' a.texts;
  quiet = subst (λ b. Quiet h seen b) blocks a.quiet;
}

module _ (h : ThinkingHandling) (seen : Bool) (o : Output) (a : Agrees h seen o) where
  pub content-Agrees : (s : Bytes) → Agrees h true (handle_content s o)
  unfolding handle_content thinking_as_text
  content-Agrees s =
      let f = o.formatter in
      let o1 = record o { formatter = record f { full_content = f.full_content ++ s } } in
      agree h true o1 (thinking_as_text s o1) (a.text_read ++ s) a.thinking_read a.tools_read
        (thinking_as_text-Kept s o1)
        (inr (inr (thinking_as_text-InText o1 a.text_read a.thinking_read a.tools_read s a.ready)))
        a.tools (Texts-more h a.text_read a.thinking_read s f a.texts) (seen-Quiet h _)

pub tool_block-Agrees :
    (h : ThinkingHandling) (seen : Bool) (o : Output) (t th : Bytes) (n : ℕ) (env : Environment)
    (id name : String) (input : Fields)
    → Closed o t th n
    → n ≡ o.formatter.tool_block_count
    → Texts h t th o.formatter
    → Agrees h seen (emit_tool_use_block env id name input o)
unfolding emit_tool_use_block reserve_tool_block
tool_block-Agrees h seen o t th n env id name input c tools texts = record {
  text_read = t;
  thinking_read = th;
  tools_read = n + 1;
  ready = inl (emit_tool_use_block-Closed o t th n env id name input c);
  tools = ap (λ m. m + 1) tools;
  texts = Texts-same h t th o.formatter _ refl refl texts;
  quiet = closed-Quiet h seen _ c.1;
}

pub tool_use-Agrees :
    (h : ThinkingHandling) (seen : Bool) (o : Output) (env : Environment) (tu : ToolUseData)
    → Agrees h seen o
    → Agrees h seen (handle_tool_use env tu o)
unfolding handle_tool_use
tool_use-Agrees h seen o env tu a =
    let r = close_open_blocks o in
    let kept = close_open_blocks-Kept o in
    tool_block-Agrees h seen _ a.text_read a.thinking_read a.tools_read env
      (tool_id env tu.id r.formatter) tu.name tu.input
      (close_open_blocks-Closed o a.text_read a.thinking_read a.tools_read a.ready)
      (a.tools ∙ sym (ap (λ (f : Formatter). f.tool_block_count) kept))
      (Texts-same h a.text_read a.thinking_read o.formatter _
        (sym (ap (λ (f : Formatter). f.full_content) kept))
        (sym (ap (λ (f : Formatter). f.full_thinking_content) kept)) a.texts)
