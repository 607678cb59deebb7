-- ===== src/Server/Serve.antt =====
-- What the loop of `main` does to the session, and that no tool is reached over the wire without a
-- handshake.
use limitlesslibrary.Base.{
  ◌≡◌, refl, sym, ap, ◌∙◌, String, false, Option, none, some, List, [], ◌∷◌, ◌++◌, Outcome, ok,
  raised, All, inl, inr,
}
use mathlib.Core.Path.{subst}
use limitlesslibrary.Base.Json.{Json, obj, Fields}
use limitlesslibrary.Mcp.Dispatcher.{
  Failure, value_error, type_error, other_error, Codec, Dispatcher,
}
use limitlesslibrary.Mcp.Session.{Session, run, open_session}
use limitlesslibrary.Mcp.Session
use limitlesslibrary.Mcp.Session.Gate.{IsLegacy, Notified, Handshake, run_without-Handshake}
use limitlesslibrary.Server.{
  Frame, line, too_long, not_utf8, Served, answer, respond, stopped, read_line, serve,
}

All-append : {A : Type 0} (P : A → Type 0) (xs ys : List A) → All P (xs ++ ys) → All P xs
All-append P [] ys h = tt
All-append P (x ∷ xs) ys (p, h) = (p, All-append P xs ys h)

Notified-append : (xs ys : List Fields) → Notified xs → Notified (xs ++ ys)
Notified-append [] ys h = absurd h
Notified-append (x ∷ xs) ys (inl h) = inl h
Notified-append (x ∷ xs) ys (inr h) = inr (Notified-append xs ys h)

Handshake-append : (xs ys : List Fields) → Handshake xs → Handshake (xs ++ ys)
Handshake-append [] ys h = absurd h
Handshake-append (x ∷ xs) ys (inl (i, n)) = inl (i, Notified-append xs ys n)
Handshake-append (x ∷ xs) ys (inr h) = inr (Handshake-append xs ys h)

module _ {W : Type 0} (codec : Codec) (d : Dispatcher W)
    (loads : String → Outcome Failure Json) where
  -- The message of a line that is a JSON object.
  abbrev pub and_message : Outcome Failure Json → List Fields → List Fields
  and_message (ok (obj message)) messages = message ∷ messages
  and_message _ messages = messages

  -- The messages of the frames, in order.
  unfoldable pub messages_of : List Frame → List Fields
  messages_of [] = []
  messages_of (line text ∷ frames) = and_message (loads text) (messages_of frames)
  messages_of (_ ∷ frames) = messages_of frames

  -- The session is what the first of the messages make of it, and all of them unless the loop was left
  -- by an exception.
  pub record Ran (messages : List Fields) (s : Session W) (served : Served W) : Type 0 where
    pub before : List Fields
    pub after : List Fields
    pub split : messages ≡ before ++ after
    pub ran : served.session ≡ run codec d before s
    pub whole : served.crashed ≡ false → after ≡ []

  -- What is printed makes no difference.
  Ran-answer :
      (messages : List Fields) (s : Session W) (response : Json) (x : Served W)
      → Ran messages s x
      → Ran messages s (answer response x)
  Ran-answer messages s response x r = record {
    before = r.before;
    after = r.after;
    split = r.split;
    ran = r.ran;
    whole = r.whole;
  }

  Ran-stopped :
      (messages : List Fields) (s t : Session W) (m : Fields)
      → t ≡ (Session.handle codec d m s).1
      → Ran (m ∷ messages) s (stopped t)
  unfolding run
  Ran-stopped messages s t m e = record {
    before = m ∷ [];
    after = messages;
    split = refl;
    ran = e;
    whole = λ h. cc;
  }

  Ran-raised :
      (messages : List Fields) (s : Session W) (failure : Failure) (x : Served W)
      → Ran messages s x
      → Ran messages s (respond (raised failure, s) x)
  unfolding run
  Ran-raised messages s (type_error m) x r = Ran-answer messages s _ x r
  Ran-raised messages s (value_error m) x r = Ran-answer messages s _ x r
  Ran-raised messages s (other_error m) x r = record {
    before = [];
    after = messages;
    split = refl;
    ran = refl;
    whole = λ h. cc;
  }

  -- A message that the session has handled is the first of those that ran.
  Ran-handle :
      (messages : List Fields) (m : Fields) (s : Session W) (x : Served W)
      → Ran messages (Session.handle codec d m s).1 x
      → Ran (m ∷ messages) s x
  unfolding run
  Ran-handle messages m s x r = record {
    before = m ∷ r.before;
    after = r.after;
    split = ap (λ l. m ∷ l) r.split;
    ran = r.ran;
    whole = r.whole;
  }

  Ran-respond :
      (messages : List Fields) (m : Fields) (s : Session W)
      (o : Outcome Failure (Option Json) × Session W) (x : Served W)
      → o.1 ≡ (Session.handle codec d m s).1
      → Ran messages (Session.handle codec d m s).1 x
      → Ran (m ∷ messages) s (respond o x)
  unfolding run
  Ran-respond messages m s (ok none, t) x e r = Ran-handle messages m s x r
  Ran-respond messages m s (ok (some response), t) x e r =
      Ran-answer (m ∷ messages) s response x (Ran-handle messages m s x r)
  Ran-respond messages m s (raised (type_error text), t) x e r =
      Ran-answer (m ∷ messages) s _ x (Ran-handle messages m s x r)
  Ran-respond messages m s (raised (value_error text), t) x e r =
      Ran-answer (m ∷ messages) s _ x (Ran-handle messages m s x r)
  Ran-respond messages m s (raised (other_error text), t) x e r = Ran-stopped messages s t m e

  Ran-read_line :
      (o : Outcome Failure Json) (messages : List Fields) (s : Session W)
      (next : Session W → Served W)
      → ((t : Session W) → Ran messages t (next t))
      → Ran (and_message o messages) s (read_line codec d loads o s next)
  Ran-read_line (ok (obj message)) messages s next h =
      Ran-respond messages message s (Session.handle codec d message s) _ refl
        (h (Session.handle codec d message s).1)
  Ran-read_line (ok _) messages s next h = Ran-answer messages s _ (next s) (h s)
  Ran-read_line (raised failure) messages s next h = Ran-raised messages s failure (next s) (h s)

  -- Whatever the frames are, the loop returns, and the session it leaves is what the first of the
  -- messages make of it: frames that are too long, no UTF-8, no JSON or no object leave it alone, and
  -- so does what is answered. All messages are handled unless an exception leaves the loop.
  pub serve-Ran :
      (frames : List Frame) (s : Session W)
      → Ran (messages_of frames) s (serve codec d loads frames s)
  unfolding serve messages_of run
  serve-Ran [] s = record { before = []; after = []; split = refl; ran = refl; whole = λ _. refl }
  serve-Ran (too_long ∷ frames) s =
      Ran-answer (messages_of frames) s _ (serve codec d loads frames s) (serve-Ran frames s)
  serve-Ran (not_utf8 ∷ frames) s =
      Ran-answer (messages_of frames) s _ (serve codec d loads frames s) (serve-Ran frames s)
  serve-Ran (line text ∷ frames) s =
      Ran-read_line (loads text) (messages_of frames) s (λ t. serve codec d loads frames t)
        (λ t. serve-Ran frames t)

  -- Whatever lines a client of the initialization era sends to a fresh server, no tool is reached
  -- unless there is a handshake among the messages. The condition is that no message carries the
  -- modern metadata; lines that are broken, and exceptions that leave the loop, are included.
  pub serve_without-Handshake :
      (frames : List Frame) (w : W)
      → All IsLegacy (messages_of frames)
      → ¬ Handshake (messages_of frames)
      → (serve codec d loads frames (open_session w)).session.world ≡ w
  serve_without-Handshake frames w l n =
      let r = serve-Ran frames (open_session w) in
      ap (λ s. s.world) r.ran
      ∙ run_without-Handshake codec d r.before w
          (All-append IsLegacy r.before r.after (subst (All IsLegacy) r.split l))
          (λ h. n (subst Handshake (sym r.split) (Handshake-append r.before r.after h)))
