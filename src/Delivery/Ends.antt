-- ===== src/Delivery/Ends.antt =====
-- The client library at the two ends of a message's way (SendMessage and ReceiveMessage in
-- cpm/cpm_impl.cc).
use cpmd.Base.{
  ℕ, ◌<◌, ◌≡◌, refl, sym, ap, ◌∙◌, Bool, true, false, some, List, [], ◌∷◌, ◌++◌, map, append-nil,
  append_assoc, All, if◌then◌else◌,
}
use cpmd.Base.Outcome.{Outcome, ok}
use cpmd.Alpha.{Alpha}
use cpmd.Message.{Message, max_data_size, serialize}
use cpmd.Message.Layout.{IsValid}
use cpmd.Library.{ClientImpl, accept, send_message, receive_message}
use cpmd.Library.Udp.{Status, status_ok, bus_full}
use cpmd.Library.Limits.{serialize-limits}
use cpmd.Delivery.{trimmed, IsQueue, Sends, Receives}

-- What ReceiveMessage accepts.
pub record IsReceived (m : Message) : Type 0 where
  pub valid : IsValid m
  pub short : m.len < max_data_size

module _ ⦃α : Alpha⦄ (contents : α.Bus → List (List ℕ)) (queue : IsQueue contents) where
  wrote :
      (c d : ClientImpl) (w : α.Bus × Bool)
      → ◌≡◌ {A = Outcome (ClientImpl × Status)}
          (ok (record c { output = some w.0 }, (if w.1 then status_ok else bus_full)))
          (ok (d, status_ok))
      → (d.output ≡ some w.0) × (w.1 ≡ true)
  wrote c d (b, true) e = (ap_output (cc e), refl)
    where
      ap_output : d ≡ record c { output = some b } → d.output ≡ some b
      ap_output h = rw h
  wrote c d (b, false) e = cc

  -- What a SendMessage that gives kOk did.
  send_message-status_ok :
      (c d : ClientImpl) (m : Message) (p : α.Bus)
      → c.output ≡ some p
      → send_message c m ≡ ok (d, status_ok)
      → (d.output ≡ some (α.bus_write p (serialize m)).0) × ((α.bus_write p (serialize m)).1 ≡ true)
  unfolding send_message
  send_message-status_ok c d m p e run =
      wrote c d (α.bus_write p (serialize m)) (sym (rw e refl) ∙ run)

  -- What lies on the bus behind messages that were sent.
  pub Sends-contents :
      (ms : List Message) (c d : ClientImpl) (p : α.Bus)
      → c.output ≡ some p
      → Sends c ms d
      → (q : α.Bus) × (d.output ≡ some q) × (contents q ≡ contents p ++ map serialize ms)
  Sends-contents [] c d p e same =
      (p, ap (λ (x : ClientImpl). x.output) (sym same) ∙ e, sym (append-nil (contents p)))
  Sends-contents (m ∷ ms) c d p e (c', run, more) =
      let (out, done) = send_message-status_ok c c' m p e run in
      let (q, there, all) = Sends-contents ms c' d (α.bus_write p (serialize m)).0 out more in
      (
        q,
        there,
        all
            ∙ ap (λ (xs : List (List ℕ)). xs ++ map serialize ms)
                (queue.writes p (serialize m) done)
            ∙ append_assoc (contents p) (serialize m ∷ []) (map serialize ms),
      )

  -- What is received from a bus on which messages lie.
  pub contents-Receives :
      (ms : List Message) (c : ClientImpl) (p : α.Bus)
      → c.input ≡ some p
      → contents p ≡ map serialize ms
      → All IsReceived ms
      → Receives c (map trimmed ms)
  unfolding receive_message
  contents-Receives [] c p e all v = (
    record c { input = some (α.bus_read p).0 },
    rw (e, (queue.reads_nothing p all).0, accept) refl,
  )
  contents-Receives (m ∷ ms) c p e all v =
      let (first, rest) = queue.reads p (serialize m) (map serialize ms) all in
      let read = (serialize-limits m v.0.valid).2 v.0.short in
      (
        record c { input = some (α.bus_read p).0 },
        rw (e, first, read) refl,
        contents-Receives ms _ (α.bus_read p).0 refl rest v.1,
      )
