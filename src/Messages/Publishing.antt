-- ===== src/Messages/Publishing.antt =====
-- What `sendMessage` of src/messages/messages.service.ts adds to the messages that the broker has taken.
use lidofinance_lido_council.Shared.{
  ◌≡◌, ◌⊎◌, inl, inr, refl, sym, ◌∙◌, ap, String, List, [], ◌∷◌, ◌++◌, append_assoc, append-nil,
  All,
}
use lidofinance_lido_council.Outcome.{Outcome, ok, throw, exit, pending, continue}
use lidofinance_lido_council.Messages.{
  MessagesEnv, Message, Published, Broker, get_message_topic, send_message, published_on,
  publish_and_count,
}

-- Nothing was published, or the message was, on some topic.
abbrev pub MayAdd : MessagesEnv → Message → List Published → List Published → Type 0
MayAdd env message old new =
    (new ≡ old) ⊎ ((topic : String) × (new ≡ old ++ published_on env message topic ∷ []))

pub send_message-MayAdd :
    (env : MessagesEnv) (message : Message) (b : Broker)
    → MayAdd env message b.published (send_message env message b).1.published
unfolding send_message
send_message-MayAdd env message b = at_topic (get_message_topic env)
  where
    at_published :
        (topic : String) (r : Outcome (Unit {0}))
        → r ≡ env.publish (published_on env message topic)
        → MayAdd env message b.published (publish_and_count env message topic b).1.published
    at_published topic (ok tt) e = inr (topic, rw (sym e) refl)
    at_published topic (throw f) e = inl (rw (sym e))
    at_published topic exit e = inl (rw (sym e))
    at_published topic pending e = inl (rw (sym e))

    at_topic :
        (r : Outcome String)
        → MayAdd env message b.published (continue (publish_and_count env message) r b).1.published
    at_topic (ok topic) = at_published topic (env.publish (published_on env message topic)) refl
    at_topic (throw f) = inl refl
    at_topic exit = inl refl
    at_topic pending = inl refl

module _ {A : Type 0} (J : A → Type 0) where
  -- What there was, and after it what satisfies `J`
  abbrev pub Adds : List A → List A → Type 0
  Adds old new = (added : List A) × (new ≡ old ++ added) × All J added

  pub Adds-refl : (l : List A) → Adds l l
  Adds-refl l = ([], sym (append-nil l), tt)

  All-append : (xs ys : List A) → All J xs → All J ys → All J (xs ++ ys)
  All-append [] ys hx hy = hy
  All-append (x ∷ xs) ys (h, hx) hy = (h, All-append xs ys hx hy)

  pub Adds-trans : (k l m : List A) → Adds k l → Adds l m → Adds k m
  Adds-trans k l m (xs, ex, hx) (ys, ey, hy) =
      (xs ++ ys, ey ∙ ap (λ r. r ++ ys) ex ∙ append_assoc k xs ys, All-append xs ys hx hy)

pub MayAdd-Adds :
    (J : Published → Type 0) (env : MessagesEnv) (message : Message) (old new : List Published)
    → ((topic : String) → J (published_on env message topic))
    → MayAdd env message old new
    → Adds J old new
MayAdd-Adds J env message old new j (inl same) = rw same (Adds-refl J old)
MayAdd-Adds J env message old new j (inr (topic, more)) =
    (published_on env message topic ∷ [], more, (j topic, tt))

pub All-map :
    {A : Type 0} {J K : A → Type 0} (f : (p : A) → J p → K p) (xs : List A) → All J xs → All K xs
All-map f [] h = tt
All-map f (x ∷ xs) (h, hs) = (f x h, All-map f xs hs)

pub Adds-map :
    {A : Type 0} {J K : A → Type 0} (f : (p : A) → J p → K p) (old new : List A)
    → Adds J old new
    → Adds K old new
Adds-map f old new (added, more, all) = (added, more, All-map f added all)
