-- ===== src/Providers/RateLimit/Cooldown.antt =====
-- How the tracker's entries change: a 429 starts a cooldown, a response's figures replace the entry.
use rkgw.Base.{
  ℕ, ◌+◌, ◌<◌, false, List, Option, none, some, arith, ◌≡◌, ◌≢◌, ◌⊎◌, inl, inr, refl, ltb, lt→ltb,
  unwrap_or,
}
use rkgw.Base.Maps.{lookup, insert, lookup-insert_self, lookup-insert_ne}
use rkgw.Providers.Id.{ProviderId}
use rkgw.Providers.RateLimit.{
  AccountId, account_eq, limit_entry, RateLimitState, RateLimitTracker, Headers,
  default_retry_after, compute_score, mark_limited, header_figures, update_from_headers,
  store_figures,
}
use rkgw.Providers.RateLimit.Select.{best_account}
use rkgw.Providers.RateLimit.Optimal.{is_limited, headroom, best_account-IsBest}

module _ (t : RateLimitTracker) (a : AccountId) (retry_after : Option ℕ) (now : ℕ)
    {t' : RateLimitTracker} (marked : mark_limited t a retry_after now ≡ some t') where
  abbrev cooldown : ℕ
  cooldown = unwrap_or retry_after default_retry_after

  -- The entry that a mark writes.
  marked_entry :
      (state : RateLimitState) × (t' ≡ record t { states = insert a state t.states })
      × (state.limited_until ≡ some (now + cooldown))
      × (state.requests_remaining ≡ some 0)
  unfolding mark_limited
  marked_entry = (
    limit_entry (lookup a t.states) now (now + cooldown),
    ground arith,
    ground arith,
    ground arith,
  )

  -- Marking an account, where it does not panic, starts its cooldown: at any time it counts as limited exactly while the
  -- cooldown lasts, its request headroom is gone, and no other account's entry changes.
  pub mark_limited_lem :
      ((later : ℕ) → is_limited t'.states later a ≡ ltb later (now + cooldown))
      × ((b : AccountId) → b ≢ a → lookup b t'.states ≡ lookup b t.states)
      × (t'.round_robin ≡ t.round_robin)
  unfolding is_limited
  mark_limited_lem =
      let (state, e, until, requests) = marked_entry in
      (
        (λ later. rw e (ground (arith, lookup-insert_self a state t.states, until))),
        (λ b other. rw e (lookup-insert_ne a b state t.states other)),
        rw e refl,
      )

  -- After a mark that does not panic, until the cooldown is over, no choice among any candidates gives the
  -- account from the tracker that the mark leaves.
  pub best_account-mark_limited :
      (later : ℕ) (candidates : List AccountId)
      → later < now + cooldown
      → (best_account t' later candidates).0 ≢ some a
  best_account-mark_limited later candidates h e =
      let best = best_account-IsBest t' later candidates a e in
      let (until, _, _) = mark_limited_lem in
      cc (best.1, until later, lt→ltb later (now + cooldown) h)

-- The entry that figures write.
figures_entry : Option ℕ → Option ℕ → ℕ → RateLimitState
figures_entry requests tokens now = record {
  requests_remaining = requests;
  tokens_remaining = tokens;
  reset_at = none;
  limited_until = none;
  updated_at = now;
}

-- At least one of the two figures is there.
abbrev IsReadable : Option ℕ → Option ℕ → Type 0
IsReadable requests tokens = (requests ≢ none) ⊎ (tokens ≢ none)

module _ (t : RateLimitTracker) (a : AccountId) (now : ℕ) where
  -- Without a figure nothing changes; with one, the account's entry is replaced.
  store_figures_cases :
      (figures : Option (Option ℕ × Option ℕ))
      → ((store_figures t a now figures ≡ t) × ((figures ≡ none) ⊎ (figures ≡ some (none, none))))
        ⊎ ((requests : Option ℕ) × (tokens : Option ℕ) × (figures ≡ some (requests, tokens))
            × IsReadable requests tokens
            × (store_figures t a now figures
                ≡ record t { states = insert a (figures_entry requests tokens now) t.states }))
  unfolding store_figures figures_entry
  store_figures_cases none = inl (refl, inl refl)
  store_figures_cases (some (none, none)) = inl (refl, inr refl)
  store_figures_cases (some (some r, tokens)) = inr (some r, tokens, refl, inl (λ e. cc e), refl)
  store_figures_cases (some (none, some k)) = inr (none, some k, refl, inr (λ e. cc e), refl)

  -- What a response does to the tracker. Where neither figure can be read nothing changes. Where one
  -- can, the account has the headroom of the figures and is free at every later time, even in the middle of a
  -- cooldown, and no other account's entry changes.
  pub update_from_headers_cases :
      (p : ProviderId) (headers : Headers)
      → let t' = update_from_headers t a p headers now in
        ((t' ≡ t)
          × ((header_figures p headers ≡ none) ⊎ (header_figures p headers ≡ some (none, none))))
        ⊎ ((requests : Option ℕ) × (tokens : Option ℕ) × (header_figures p headers
              ≡ some (requests, tokens))
            × IsReadable requests tokens
            × ((later : ℕ) → is_limited t'.states later a ≡ false)
            × (headroom t'.states a ≡ compute_score requests tokens)
            × ((b : AccountId) → b ≢ a → lookup b t'.states ≡ lookup b t.states))
  unfolding update_from_headers is_limited headroom figures_entry
  update_from_headers_cases p headers = elim (store_figures_cases (header_figures p headers)) [
    | inl (e, h) ↦ inl (e, h)
    | inr (r, k, h, readable, e) ↦
        let state = figures_entry r k now in
        let here = lookup-insert_self a state t.states in
        inr (
          r,
          k,
          h,
          readable,
          (λ later. rw e (ground (arith, here))),
          rw e (ground (arith, here)),
          (λ b other. rw e (lookup-insert_ne a b state t.states other)),
        )
  ]
