-- ===== src/Stop/Handles/Exchange.antt =====
-- The counts of all stop states when two handles exchange what they point to (stop_token.cpp, `swap`).
use macoro.Common.{ℕ, ◌<◌, ◌≡◌, sym, ap, false, ◌==◌}
use macoro.Common.Family.{update, tally_exchange}
use macoro.Stop.Handles.Defs.{Handle, Heap, point, swap}
use macoro.Stop.Handles.Effects.{hit, source_weight, token_weight, sources_at, tokens_at}
use macoro.Stop.Handles.Moves.{sources, tokens, Inv, point-At}

module _ (n : ℕ) (h : Heap) (inv : Inv n h) where
  -- Two handles of one kind exchange what they point to.
  pub exchange :
      (i j : ℕ)
      → i < n
      → j < n
      → (i == j) ≡ false
      → (h.handle i).kind ≡ (h.handle j).kind
      → Inv n (swap i j h)
  unfolding swap point
  exchange i j lt ltj ne same k =
      let a : Handle = record { kind = (h.handle i).kind; state = (h.handle j).state } in
      let half : ℕ → Handle = update h.handle i a in
      let b : Handle = record { kind = (half j).kind; state = (h.handle i).state } in
      let back : (half j).kind ≡ (h.handle i).kind = rw ne (sym same) in
      let same_sources : sources n (update half j b) k ≡ sources n h.handle k =
        tally_exchange (sources_at k) h.handle n i j a b lt ltj ne
          (ap (λ c. source_weight c (hit (h.handle j).state k)) same)
          (ap (λ c. source_weight c (hit (h.handle i).state k)) back) in
      let same_tokens : tokens n (update half j b) k ≡ tokens n h.handle k =
        tally_exchange (tokens_at k) h.handle n i j a b lt ltj ne
          (ap (λ c. token_weight c (hit (h.handle j).state k)) same)
          (ap (λ c. token_weight c (hit (h.handle i).state k)) back) in
      rw (same_sources, same_tokens)
        (point-At k _ _ j (h.handle i).state (point i (h.handle j).state h)
          (point-At k _ _ i (h.handle j).state h (inv k)))
