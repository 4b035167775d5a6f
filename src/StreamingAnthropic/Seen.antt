-- ===== src/StreamingAnthropic/Seen.antt =====
-- What a client has read, event by event.
use kiro_gateway_go.Common.{
  ℕ, ◌+◌, true, Option, none, some, List, [], ◌∷◌, ◌++◌, ◌==◌, ==_iff, some_inj, Option-cases, inl,
  inr, ◌≡◌, refl, sym, ap, ◌∙◌,
}
use kiro_gateway_go.Common.Bytes.{Bytes}
use kiro_gateway_go.StreamingAnthropic.{
  Block, Delta, SseEvent, content_block_start, content_block_delta, content_block_stop,
}
use kiro_gateway_go.StreamingAnthropic.Protocol.{
  BlockKind, kind_of, suits, text_of, thinking_of, tools_of, Phase, between, inside, Client,
  new_client, next_phase, kept, receive, receive_all,
}

pub receive_all-append :
    (es es' : List SseEvent) (c d : Client)
    → receive_all es c ≡ some d
    → receive_all (es ++ es') c ≡ receive_all es' d
unfolding receive_all
receive_all-append [] es' c d h = ap (receive_all es') (some_inj h)
receive_all-append (e ∷ es) es' c d h =
    let next : List SseEvent → Option Client → Option Client =
      λ rest r. elim r [ none ↦ none | some c' ↦ receive_all rest c' ] in
    elim (Option-cases (receive e c)) [
      | inl n ↦ absurd (cc (sym (ap (next es) n) ∙ h))
      | inr (c', r) ↦
          ap (next (es ++ es')) r ∙ receive_all-append es es' c' d (sym (ap (next es) r) ∙ h)
    ]

-- The client that is in the middle of a response.
abbrev pub client_at : Phase → Bytes → Bytes → ℕ → Client
client_at p t th n = record {
  phase = p;
  text_read = t;
  thinking_read = th;
  tools_read = n;
  stop_reason = none;
}

-- What has been written leads a client there.
abbrev pub Seen : List SseEvent → Phase → Bytes → Bytes → ℕ → Type 0
Seen es p t th n = receive_all es new_client ≡ some (client_at p t th n)

-- One event more, which may come.
pub Seen-emit :
    (es : List SseEvent) (e : SseEvent) (p q : Phase) (t th : Bytes) (n : ℕ)
    → Seen es p t th n
    → next_phase p e ≡ some q
    → receive_all (es ++ (e ∷ [])) new_client
      ≡ some (record (kept e (client_at p t th n)) { phase = q })
unfolding receive_all receive
Seen-emit es e p q t th n h may =
    receive_all-append es (e ∷ []) new_client (client_at p t th n) h ∙ rw may refl

==_refl : (n : ℕ) → (n == n) ≡ true
==_refl n = (==_iff n n).1 refl

module _ (es : List SseEvent) (i : ℕ) (t th : Bytes) (n : ℕ) where
  pub Seen-start :
      (b : Block) (m : ℕ)
      → n + tools_of (kind_of b) ≡ m
      → Seen es (between i) t th n
      → Seen (es ++ (content_block_start i b ∷ [])) (inside i (kind_of b)) t th m
  unfolding next_phase kept
  Seen-start b m e h =
      let q = inside i (kind_of b) in
      Seen-emit es (content_block_start i b) (between i) q t th n h (rw (==_refl i) refl)
      ∙ ap (λ k. some (client_at q t th k)) e

  pub Seen-stop :
      (k : BlockKind)
      → Seen es (inside i k) t th n
      → Seen (es ++ (content_block_stop i ∷ [])) (between (i + 1)) t th n
  unfolding next_phase kept
  Seen-stop k h =
      Seen-emit es (content_block_stop i) (inside i k) (between (i + 1)) t th n h
        (rw (==_refl i) refl)

  pub Seen-delta :
      (k : BlockKind) (d : Delta) (t' th' : Bytes)
      → suits k d ≡ true
      → t ++ text_of d ≡ t'
      → th ++ thinking_of d ≡ th'
      → Seen es (inside i k) t th n
      → Seen (es ++ (content_block_delta i d ∷ [])) (inside i k) t' th' n
  unfolding next_phase kept
  Seen-delta k d t' th' fits e e' h =
      Seen-emit es (content_block_delta i d) (inside i k) (inside i k) t th n h
        (rw (==_refl i, fits) refl)
      ∙ ap (λ s. some (client_at (inside i k) s (th ++ thinking_of d) n)) e
      ∙ ap (λ s. some (client_at (inside i k) t' s n)) e'
