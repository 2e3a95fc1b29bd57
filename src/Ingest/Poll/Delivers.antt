-- ===== src/Ingest/Poll/Delivers.antt =====
-- internal/ingest/forge.go: which notifications a poll delivers, and where it leaves the watermark.
use botfam.Base.{
  ℕ, String, ◌≡◌, refl, sym, inl, inr, true, false, List, [], ◌∷◌, ◌++◌, map, append-nil,
  append_assoc, ltb, if◌then◌else◌, Bool-cases, Result, ok, err, continue, filter,
}
use botfam.Mailbox.Message.{Times, Message, encode}
use botfam.Mailbox.Spool.{Spool, Process, deliver}
use botfam.Mailbox.Spool.Deliver.{
  IsFresh, contents, added, deliver-Delivery, contents-Delivery, IsFresh-Delivery,
}
use botfam.Ingest.{Notification, ForgeClient, Unicode, build_message}
use botfam.Ingest.Poll.{forge_updated_unix, high_water, is_newer, deliver_newer}

module _ {Time : Type 0} (times : Times Time) (unix : Time → ℕ) (unicode : Unicode) (p : Process)
    (client : ForgeClient Time) (login : String) where
  abbrev message_of : Notification → Message Time
  message_of n = build_message times unicode client login n

  -- the texts of the files that are delivered for notifications
  unfoldable pub texts_of : List Notification → List String
  texts_of ns = map (λ n. encode times (message_of n)) ns

  -- What is left when the loop is through: what was newer stands in new/, in order; an error leaves
  -- only that the names are still fresh.
  unfoldable pub Delivered : ℕ → ℕ → List Notification → Spool Time → Result ℕ → Spool Time → Type 0
  Delivered start m ns s (err e) s' = IsFresh times p s'
  Delivered start m ns s (ok m') s' =
      IsFresh times p s'
      × (contents s' ≡ contents s ++ texts_of (filter (is_newer times unix start) ns))
      × (m' ≡ high_water times unix m (filter (is_newer times unix start) ns))

  Delivered-after :
      (start m : ℕ) (n : Notification) (ns : List Notification) (s s1 : Spool Time) (name : String)
      (r : Result ℕ) (s' : Spool Time)
      → is_newer times unix start n ≡ true
      → contents s1 ≡ contents s ++ added times p (message_of n) (ok name)
      → (let u = forge_updated_unix times unix n in
          Delivered start (if ltb m u then u else m) ns s1 r s')
      → Delivered start m (n ∷ ns) s r s'
  unfolding Delivered filter texts_of high_water added
  Delivered-after start m n ns s s1 name (err e) s' hn hc h = h
  Delivered-after start m n ns s s1 name (ok m') s' hn hc h = (
    h.0,
    rw
        (
          hn,
          h.1,
          hc,
          append_assoc (contents s) (encode times (message_of n) ∷ [])
              (map (λ n. encode times (message_of n)) (filter (is_newer times unix start) ns)),
        )
        refl,
    rw (hn, h.2) refl,
  )

  continue-Delivered :
      (start m : ℕ) (n : Notification) (ns : List Notification) (s : Spool Time) (r : Result String)
      (s1 : Spool Time)
      → is_newer times unix start n ≡ true
      → IsFresh times p s1
      → contents s1 ≡ contents s ++ added times p (message_of n) r
      → (let u = forge_updated_unix times unix n in
          let loop =
            deliver_newer times unix unicode p client login start (if ltb m u then u else m) ns in
          (IsFresh times p s1
            → Delivered start (if ltb m u then u else m) ns s1 (loop s1).0 (loop s1).1)
          → Delivered start m
              (n ∷ ns)
              s
              (continue r (λ _. loop) s1).0
              (continue r (λ _. loop) s1).1)
  unfolding Delivered
  continue-Delivered start m n ns s (err e) s1 hn hf hc h = hf
  continue-Delivered start m n ns s (ok name) s1 hn hf hc h =
      let u = forge_updated_unix times unix n in
      let loop =
        deliver_newer times unix unicode p client login start (if ltb m u then u else m) ns in
      Delivered-after start m n ns s s1 name (loop s1).0 (loop s1).1 hn hc (h hf)

  Delivered-skip :
      (start m : ℕ) (n : Notification) (ns : List Notification) (s : Spool Time) (r : Result ℕ)
      (s' : Spool Time)
      → is_newer times unix start n ≡ false
      → Delivered start m ns s r s'
      → Delivered start m (n ∷ ns) s r s'
  unfolding Delivered filter
  Delivered-skip start m n ns s (err e) s' hn h = h
  Delivered-skip start m n ns s (ok m') s' hn h = rw hn h

  deliver_newer-newer :
      (start m : ℕ) (n : Notification) (ns : List Notification) (s : Spool Time)
      → is_newer times unix start n ≡ true
      → deliver_newer times unix unicode p client login start m (n ∷ ns) s ≡ (
          let u = forge_updated_unix times unix n in
          let (r, s1) = deliver times p (message_of n) s in
          continue r
            (λ _.
              deliver_newer times unix unicode p client login start (if ltb m u then u else m) ns)
            s1)
  unfolding deliver_newer
  deliver_newer-newer start m n ns s e = rw (deliver_newer, e) refl

  deliver_newer-skip :
      (start m : ℕ) (n : Notification) (ns : List Notification) (s : Spool Time)
      → is_newer times unix start n ≡ false
      → deliver_newer times unix unicode p client login start m (n ∷ ns) s
        ≡ deliver_newer times unix unicode p client login start m ns s
  unfolding deliver_newer
  deliver_newer-skip start m n ns s e = rw (deliver_newer, e) refl

  deliver_newer-nil :
      (start m : ℕ) (s : Spool Time)
      → deliver_newer times unix unicode p client login start m [] s ≡ (ok m, s)
  unfolding deliver_newer
  deliver_newer-nil start m s = refl

  Delivered-nil :
      (start m : ℕ) (s : Spool Time) → IsFresh times p s → Delivered start m [] s (ok m) s
  unfolding Delivered filter texts_of high_water
  Delivered-nil start m s hf = (hf, sym (append-nil (contents s)), refl)

  pub deliver_newer-Delivered :
      (start m : ℕ) (ns : List Notification) (s : Spool Time)
      → IsFresh times p s
      → (let loop = deliver_newer times unix unicode p client login start m ns s in
          Delivered start m ns s loop.0 loop.1)
  deliver_newer-Delivered start m [] s hf =
      rw (deliver_newer-nil start m s) (Delivered-nil start m s hf)
  deliver_newer-Delivered start m (n ∷ ns) s hf = elim (Bool-cases (is_newer times unix start n)) [
    | inl e ↦ rw (deliver_newer-newer start m n ns s e) (
        let d = deliver-Delivery times p (message_of n) s hf in
        let (r, s1) = deliver times p (message_of n) s in
        let u = forge_updated_unix times unix n in
        continue-Delivered start m n ns s r s1 e
          (IsFresh-Delivery times p (message_of n) s r s1 hf d)
          (contents-Delivery times p (message_of n) s r s1 d)
          (deliver_newer-Delivered start (if ltb m u then u else m) ns s1))
    | inr e ↦ rw (deliver_newer-skip start m n ns s e) (
        let loop = deliver_newer times unix unicode p client login start m ns s in
        Delivered-skip start m n ns s loop.0 loop.1 e (deliver_newer-Delivered start m ns s hf))
  ]
