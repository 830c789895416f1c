-- ===== src/Audio/Parts.antt =====
-- src/audio_pipeline.rs: an account of what a run of the mixer gives to the encoder.
use clankvox.Base.{
  ℕ, ◌≤◌, ◌≡◌, refl, sym, ap, ◌∙◌, Option, List, [], ◌∷◌, ◌++◌, length, append_assoc, append-nil,
  All,
}
use clankvox.Base.Int.{ℤ}
use clankvox.Audio.Floats.{Floats, GainEnvelope, apply_samples}
use clankvox.Audio.State.{AudioSendState}
use clankvox.Audio.Mix.{mixed}

module _ {E : Type 0} (encode : E → List ℤ → Option (List ℕ) × E) where
  -- The encoder, with a record of the frames that it has been given, oldest first.
  abbrev pub recording : E × List (List ℤ) → List ℤ → Option (List ℕ) × (E × List (List ℤ))
  recording r pcm = ((encode r.0 pcm).0, ((encode r.0 pcm).1, r.1 ++ (pcm ∷ [])))

-- The music and the speech of each frame, before the gain.
abbrev pub Part : Type 0
Part = List ℤ × List ℤ

abbrev pub music_of : List Part → List ℤ
music_of [] = []
music_of ((music, speech) ∷ parts) = music ++ music_of parts

abbrev pub speech_of : List Part → List ℤ
speech_of [] = []
speech_of ((music, speech) ∷ parts) = speech ++ speech_of parts

-- What one frame can hold.
abbrev pub Fits : Part → Type 0
Fits part = (length part.0 ≤ 960) × (length part.1 ≤ 960)

module _ {F D : Type 0} (fl : Floats F D) where
  -- The frames of some parts, the gain envelope going on from frame to frame.
  unfoldable pub frames : GainEnvelope F → List Part → List (List ℤ)
  frames gain [] = []
  frames gain ((music, speech) ∷ parts) =
      let (louder, gain') = apply_samples fl gain music in
      mixed 960 louder speech ∷ frames gain' parts

  unfoldable pub gain_after : GainEnvelope F → List Part → GainEnvelope F
  gain_after gain [] = gain
  gain_after gain ((music, speech) ∷ parts) = gain_after (apply_samples fl gain music).1 parts

  frames-append :
      (gain : GainEnvelope F) (ps qs : List Part)
      → frames gain (ps ++ qs) ≡ frames gain ps ++ frames (gain_after gain ps) qs
  unfolding frames gain_after
  frames-append gain [] qs = refl
  frames-append gain (p ∷ ps) qs =
      ap (λ (l : List (List ℤ)). mixed 960 (apply_samples fl gain p.0).0 p.1 ∷ l)
        (frames-append (apply_samples fl gain p.0).1 ps qs)

  gain_after-append :
      (gain : GainEnvelope F) (ps qs : List Part)
      → gain_after gain (ps ++ qs) ≡ gain_after (gain_after gain ps) qs
  unfolding gain_after
  gain_after-append gain [] qs = refl
  gain_after-append gain (p ∷ ps) qs = gain_after-append (apply_samples fl gain p.0).1 ps qs

music_of-append : (ps qs : List Part) → music_of (ps ++ qs) ≡ music_of ps ++ music_of qs
music_of-append [] qs = refl
music_of-append (p ∷ ps) qs =
    ap (λ (l : List ℤ). p.0 ++ l) (music_of-append ps qs)
    ∙ sym (append_assoc p.0 (music_of ps) (music_of qs))

speech_of-append : (ps qs : List Part) → speech_of (ps ++ qs) ≡ speech_of ps ++ speech_of qs
speech_of-append [] qs = refl
speech_of-append (p ∷ ps) qs =
    ap (λ (l : List ℤ). p.1 ++ l) (speech_of-append ps qs)
    ∙ sym (append_assoc p.1 (speech_of ps) (speech_of qs))

pub All-append {ℓ} :
    {A : Type ℓ} (P : A → Type 0) (xs ys : List A) → All P xs → All P ys → All P (xs ++ ys)
All-append P [] ys h k = k
All-append P (x ∷ xs) ys h k = (h.0, All-append P xs ys h.1 k)

abbrev pub Recorded : Type 0 → Type 0 → Type 0
Recorded F E = AudioSendState F (E × List (List ℤ))

module _ {F D E : Type 0} (fl : Floats F D) where
  -- From one state to another the parts were mixed, and the speech and the music were pushed.
  pub record Mixed (s t : Recorded F E) (speech music : List ℤ) : Type 0 where
    pub parts : List Part
    pub heard : t.encoder.1 ≡ s.encoder.1 ++ frames fl s.music_gain parts
    pub gain : t.music_gain ≡ gain_after fl s.music_gain parts
    pub in_order : speech_of parts ++ t.pcm_buffer ≡ s.pcm_buffer ++ speech
    pub music_in_order : music_of parts ++ t.music_buffer ≡ s.music_buffer ++ music
    pub fits : All Fits parts

  -- What the frames are made of is the same.
  unfoldable pub Same : Recorded F E → Recorded F E → Type 0
  Same s t =
      (t.encoder ≡ s.encoder)
      × (t.music_gain ≡ s.music_gain)
      × (t.pcm_buffer ≡ s.pcm_buffer)
      × (t.music_buffer ≡ s.music_buffer)

  pub Same-Mixed : (s t : Recorded F E) → Same s t → Mixed s t [] []
  unfolding Same frames gain_after
  Same-Mixed s t (e, g, p, m) = record {
    parts = [];
    heard = ap (λ (r : E × List (List ℤ)). r.1) e ∙ sym (append-nil s.encoder.1);
    gain = g;
    in_order = p ∙ sym (append-nil s.pcm_buffer);
    music_in_order = m ∙ sym (append-nil s.music_buffer);
    fits = tt;
  }

  pub Mixed-trans :
      {s t u : Recorded F E} (a b c d : List ℤ)
      → Mixed s t a b
      → Mixed t u c d
      → Mixed s u (a ++ c) (b ++ d)
  Mixed-trans {s = s} {t = t} {u = u} a b c d h k = record {
    parts = h.parts ++ k.parts;
    heard =
        k.heard
        ∙ (λ i. h.heard i ++ frames fl (h.gain i) k.parts)
        ∙ append_assoc s.encoder.1 (frames fl s.music_gain h.parts) _
        ∙ ap (λ (l : List (List ℤ)). s.encoder.1 ++ l)
            (sym (frames-append fl s.music_gain h.parts k.parts));
    gain =
        k.gain
        ∙ ap (λ (g : GainEnvelope F). gain_after fl g k.parts) h.gain
        ∙ sym (gain_after-append fl s.music_gain h.parts k.parts);
    in_order =
        ap (λ (l : List ℤ). l ++ u.pcm_buffer) (speech_of-append h.parts k.parts)
        ∙ append_assoc (speech_of h.parts) (speech_of k.parts) u.pcm_buffer
        ∙ ap (λ (l : List ℤ). speech_of h.parts ++ l) k.in_order
        ∙ sym (append_assoc (speech_of h.parts) t.pcm_buffer c)
        ∙ ap (λ (l : List ℤ). l ++ c) h.in_order
        ∙ append_assoc s.pcm_buffer a c;
    music_in_order =
        ap (λ (l : List ℤ). l ++ u.music_buffer) (music_of-append h.parts k.parts)
        ∙ append_assoc (music_of h.parts) (music_of k.parts) u.music_buffer
        ∙ ap (λ (l : List ℤ). music_of h.parts ++ l) k.music_in_order
        ∙ sym (append_assoc (music_of h.parts) t.music_buffer d)
        ∙ ap (λ (l : List ℤ). l ++ d) h.music_in_order
        ∙ append_assoc s.music_buffer b d;
    fits = All-append Fits h.parts k.parts h.fits k.fits;
  }
