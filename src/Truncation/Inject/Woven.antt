-- ===== src/Truncation/Inject/Woven.antt =====
-- The insertions put each notice directly behind its message.
use rkgw.Base.{
  List, [], ◌∷◌, ◌++◌, ℕ, suc, String, true, Option, none, some, leb, ◌≡◌, refl, sym, ap, ◌∙◌,
  append_assoc, length, length-append, arith,
}
use rkgw.Converters.Messages.{Json}
use rkgw.Truncation.{TruncationState}
use rkgw.Truncation.Anthropic.{recover_anthropic_message, inject_anthropic_truncation_recovery}
use rkgw.Truncation.Inject.{
  insert_at, apply_insertions, push_insertion, recover_message, scan, inject,
  inject_openai_truncation_recovery,
}

abbrev pub with_notice : Json → Option Json → List Json → List Json
with_notice msg none rest = msg ∷ rest
with_notice msg (some notice) rest = msg ∷ (notice ∷ rest)

insert_at-append :
    (before rest : List Json) (msg : Json)
    → insert_at (length before) msg (before ++ rest) ≡ before ++ (msg ∷ rest)
unfolding insert_at
insert_at-append [] rest msg = refl
insert_at-append (m ∷ before) rest msg = ap (λ l. m ∷ l) (insert_at-append before rest msg)

length-fits : (before rest : List Json) → leb (length before) (length (before ++ rest)) ≡ true
length-fits before rest = ground (arith, length-append before rest)

apply_push :
    (before rest messages : List Json) (idx : ℕ) (msg : Json) (notice : Option Json)
    (insertions : List (ℕ × Json))
    → suc idx ≡ length (before ++ (msg ∷ []))
    → apply_insertions insertions messages ≡ (before ++ (msg ∷ [])) ++ rest
    → apply_insertions (push_insertion (suc idx) notice insertions) messages
      ≡ before ++ with_notice msg notice rest
unfolding apply_insertions
apply_push before rest messages idx msg none insertions e h =
    h ∙ append_assoc before (msg ∷ []) rest
apply_push before rest messages idx msg (some notice) insertions e h =
    rw
      (
        h,
        e,
        length-fits (before ++ (msg ∷ [])) rest,
        insert_at-append (before ++ (msg ∷ [])) rest notice,
      )
      (append_assoc before (msg ∷ []) (notice ∷ rest))

module _ (recover : TruncationState → Json → TruncationState × Json × Option Json) where
  -- One pass: each message, and directly behind it the notice that belongs to it.
  unfoldable pub woven : TruncationState → List Json → TruncationState × List Json
  woven state [] = (state, [])
  woven state (msg ∷ messages) =
      let (seen, recovered, notice) = recover state msg in
      let (left, rest) = woven seen messages in (left, with_notice recovered notice rest)

  scan-woven :
      (messages before : List Json) (idx : ℕ) (state : TruncationState)
      → idx ≡ length before
      → let (left, recovered, insertions) = scan recover idx state messages in
        (left ≡ (woven state messages).0)
        × (apply_insertions insertions (before ++ recovered) ≡ before ++ (woven state messages).1)
  unfolding scan woven apply_insertions
  scan-woven [] before idx state e = (refl, refl)
  scan-woven (msg ∷ messages) before idx state e =
      let (seen, recovered, notice) = recover state msg in
      let longer = before ++ (recovered ∷ []) in
      let counted = length-append before (recovered ∷ []) in
      let (same, applied) = scan-woven messages longer (suc idx) seen (omega (arith, counted)) in
      let rest = (scan recover (suc idx) seen messages).1 in
      (
        same,
        apply_push before (woven seen messages).1 (before ++ (recovered ∷ rest)) idx recovered
            notice (scan recover (suc idx) seen messages).2 (omega (arith, counted))
            (ap (apply_insertions (scan recover (suc idx) seen messages).2)
                (sym (append_assoc before (recovered ∷ []) rest))
              ∙ applied),
      )

-- What is true of the loop is true of both.
inject-woven :
    (recover : TruncationState → Json → TruncationState × Json × Option Json)
    (state : TruncationState) (messages : List Json)
    → inject recover state messages ≡ woven recover state messages
unfolding inject
inject-woven recover state messages =
    let (same, applied) = scan-woven recover messages [] 0 state refl in
    ap (λ l. (l, (inject recover state messages).1)) same
    ∙ ap (λ l. ((woven recover state messages).0, l)) applied

-- The messages that a request goes on with are those of one pass, in which each message is followed
-- directly by its notice, if it has one: the insertions at positions find their places. This holds for
-- the requests of OpenAI and for those of Anthropic.
pub inject_truncation_recovery-woven :
    (short_hash : String → String) (state : TruncationState) (messages : List Json)
    → (inject_openai_truncation_recovery short_hash state messages
        ≡ woven (recover_message short_hash) state messages)
      × (inject_anthropic_truncation_recovery short_hash state messages
          ≡ woven (recover_anthropic_message short_hash) state messages)
unfolding inject inject_openai_truncation_recovery inject_anthropic_truncation_recovery
inject_truncation_recovery-woven short_hash state messages = (
  inject-woven (recover_message short_hash) state messages,
  inject-woven (recover_anthropic_message short_hash) state messages,
)
