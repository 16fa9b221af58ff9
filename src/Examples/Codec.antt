-- ===== src/Examples/Codec.antt =====
-- A codec of jobs in a few lines: each character of a text after a dot, and a semicolon at its end.
use Prim.Native.Char.{code}
use chroma_flow.Base.{ℕ, zero, suc, String, ◌≡◌, refl, ap, eqb, if◌then◌else◌}
use chroma_flow.Queue.Types.{ok, Job}
use chroma_flow.Queue.Redis.{Codec}
use chroma_flow.Queue.Redis.Held.{IsFaithful}

write_text : String → String → String
write_text String.[] rest = String.◌∷◌ ";" rest
write_text (String.◌∷◌ c s) rest = String.◌∷◌ "." (String.◌∷◌ c (write_text s rest))

read_text : String → String × String
read_text String.[] = (String.[], String.[])
read_text (String.◌∷◌ m String.[]) = (String.[], String.[])
read_text (String.◌∷◌ m (String.◌∷◌ c s)) =
    let (t, rest) = read_text s in
    if eqb (code m) b'.' then (String.◌∷◌ c t, rest) else (String.[], String.◌∷◌ c s)

read_text-write_text : (s rest : String) → read_text (write_text s rest) ≡ (s, rest)
unfolding read_text write_text
read_text-write_text String.[] String.[] = refl
read_text-write_text String.[] (String.◌∷◌ c s) = refl
read_text-write_text (String.◌∷◌ c s) rest =
    ap (λ w. (String.◌∷◌ c w.0, w.1)) (read_text-write_text s rest)

write_number : ℕ → String
write_number zero = ""
write_number (suc n) = String.◌∷◌ "." (write_number n)

read_number : String → ℕ
read_number String.[] = 0
read_number (String.◌∷◌ c s) = suc (read_number s)

read_number-write_number : (n : ℕ) → read_number (write_number n) ≡ n
unfolding read_number write_number
read_number-write_number zero = refl
read_number-write_number (suc n) = ap suc (read_number-write_number n)

marshal : Job → String
marshal job = write_text job.id (
    write_text job.url (
      write_text job.idempotency_key (
        write_text job.callback_url (
          write_text job.request_id
            (write_text job.queue_message_id (write_number job.lease_until))))))

unmarshal : String → Job
unmarshal t =
    let (id, t₁) = read_text t in
    let (url, t₂) = read_text t₁ in
    let (key, t₃) = read_text t₂ in
    let (callback, t₄) = read_text t₃ in
    let (request, t₅) = read_text t₄ in
    let (message, t₆) = read_text t₅ in
    record {
      id = id;
      url = url;
      idempotency_key = key;
      callback_url = callback;
      request_id = request;
      queue_message_id = message;
      lease_until = read_number t₆;
    }

unmarshal-marshal : (job : Job) → unmarshal (marshal job) ≡ job
unfolding unmarshal marshal
unmarshal-marshal job =
    rw
      (
        read_text-write_text, read_text-write_text, read_text-write_text, read_text-write_text,
        read_text-write_text, read_text-write_text, read_number-write_number,
      )
      refl

unfoldable pub codec : Codec
unfolding marshal unmarshal write_text read_text write_number read_number
codec = record { marshal = λ job. ok (marshal job); unmarshal = λ t. ok (unmarshal t) }

pub codec-IsFaithful : IsFaithful codec
unfolding codec
codec-IsFaithful job dated = (marshal job, refl, ap ok (unmarshal-marshal job))
