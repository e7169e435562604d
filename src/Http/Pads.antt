-- ===== src/Http/Pads.antt =====
-- What a client's request does to the task of its name and to the pads of the channel's media.
use cliveserver.Base.{
  ℕ, ◌≡◌, refl, ap, ◌∙◌, inl, inr, true, false, Option, none, some, List, [], ◌∷◌, ◌++◌,
  if◌then◌else◌, take, drop, take-append-drop, Bool-cases, ==_self,
}
use mathlib.Core.Option.{some-injective}
use cliveserver.Core.{cl_ok}
use cliveserver.Text.{starts_with}
use cliveserver.Text.Find.{starts_with-append}
use cliveserver.Media.{clive_media_add_output}
use cliveserver.Channel.{Channel, clive_channel_is_existed, clive_channel_find}
use cliveserver.Http.{
  HttpTask, Server, HttpClient, Memory, http_add_task, http_add_client, http_task_is_existed,
  http_task_find_from, http_task_find,
}
use cliveserver.Http.Request.{asks_ts}
use cliveserver.Http.Serve.{Head, flv_head, ts_head, served, watch, media_of, answer}

-- the task with one more client
abbrev pub with_client : HttpTask → ℕ → HttpTask
with_client task fd = record task { clients = task.clients ++ (fd ∷ []) }

module _ (name : List ℕ) (fd : ℕ) (m : Memory)
    (room : (ring : ℕ) → m.client_entry ring ≡ true) where
  find-add_client :
      (tasks : List HttpTask) (p p' : Option HttpTask) (q : HttpTask)
      → http_task_is_existed tasks name ≡ true
      → http_task_find_from p tasks name ≡ some q
      → http_task_find_from p' (http_add_client tasks name fd m) name ≡ some (with_client q fd)
  unfolding http_task_is_existed http_task_find_from http_add_client
  find-add_client [] p p' q ex h = cc
  find-add_client (t ∷ tasks) p p' q ex h = elim (Bool-cases (starts_with name t.channel_name)) [
    | inl e ↦
        rw (e, room t.buffer, e)
          (ap (λ r. some (with_client r fd)) (some-injective t q (rw e at h)))
    | inr e ↦ rw (e, e) (find-add_client tasks (some t) (some t) q (rw e at ex) (rw e at h))
  ]

  find-append :
      (tasks : List HttpTask) (p : Option HttpTask) (t : HttpTask)
      → http_task_is_existed tasks name ≡ false
      → starts_with name t.channel_name ≡ true
      → (http_task_find_from p (tasks ++ (t ∷ [])) name ≡ some t)
        × (http_task_is_existed (tasks ++ (t ∷ [])) name ≡ true)
  unfolding http_task_is_existed http_task_find_from
  find-append [] p t ex e = rw e (refl, refl)
  find-append (s ∷ tasks) p t ex e = elim (Bool-cases (starts_with name s.channel_name)) [
    | inl b ↦ cc (rw b at ex)
    | inr b ↦ rw b (find-append tasks (some s) t (rw b at ex) e)
  ]

-- the task that a request makes
abbrev pub fresh_task : List ℕ → ℕ → HttpTask
fresh_task name ring = record { clients = []; buffer = ring; channel_name = take 48 name }

-- The task that a request for a name finds, or makes.
unfoldable pub watched : Server → List ℕ → Memory → Option HttpTask
watched server name m =
    if http_task_is_existed server.tasks name
    then http_task_find server.tasks name
    else some (fresh_task name m.ring)

-- the name as the task keeps it begins the name
starts_with-take : (n : ℕ) (name : List ℕ) → starts_with name (take n name) ≡ true
starts_with-take n name =
    let e = starts_with-append (take n name) (drop n name) in rw take-append-drop at e

-- a client's entry that cannot be had would leave the client out
abbrev pub Plenty : Memory → Type 0
Plenty m = (m.task_entry ≡ true) × (m.pad_entry ≡ true) × ((ring : ℕ) → m.client_entry ring ≡ true)

find-watch :
    (server : Server) (name : List ℕ) (fd : ℕ) (m : Memory) (task : HttpTask)
    → Plenty m
    → watched server name m ≡ some task
    → http_task_find (watch server name fd m).tasks name ≡ some (with_client task fd)
unfolding watch watched http_task_find http_add_task
find-watch server name fd m task plenty h =
    elim (Bool-cases (http_task_is_existed server.tasks name)) [
      | inl e ↦ rw e (find-add_client name fd m plenty.2 server.tasks none none task e (rw e at h))
      | inr e ↦
          let (found, ex) =
            find-append name fd m plenty.2 server.tasks none (fresh_task name m.ring) e
              (starts_with-take 48 name) in
          rw e (
            simp plenty.0 (
              find-add_client name fd m plenty.2 (server.tasks ++ (fresh_task name m.ring ∷ []))
                none none task ex (found ∙ (rw e at h))))
    ]

-- a request touches the medias only by its pad
medias-watch :
    (server : Server) (name : List ℕ) (fd : ℕ) (m : Memory)
    → (watch server name fd m).world.medias ≡ server.world.medias
unfolding watch http_add_task
medias-watch server name fd m = elim (Bool-cases (http_task_is_existed server.tasks name)) [
  | inl e ↦ rw e refl
  | inr e ↦ rw e refl
]

-- what a client gets first
abbrev pub head : List ℕ → Head
head name = if asks_ts name then ts_head else flv_head

-- A request for the name of a registered channel, with the media that the name asks for present and
-- memory for all entries, is answered with that media's head. Then the task of that name, the one
-- found before or a fresh one, has the client as its last, and its ring stands behind all pads that
-- the media had, whether or not it was one of them already.
pub answer-pads :
    (server : Server) (client : HttpClient) (name : List ℕ) (m : Memory) (task : HttpTask)
    (channel : Channel) (media : ℕ)
    → Plenty m
    → clive_channel_is_existed server.registry (some name) ≡ true
    → clive_channel_find server.registry (some name) ≡ some channel
    → media_of channel (asks_ts name) ≡ some media
    → watched server name m ≡ some task
    → (server' : Server) × (answer server client (some name) m
        ≡ served cl_ok (head name ∷ []) client server')
      × (http_task_find server'.tasks name ≡ some (with_client task client.connection.skt))
      × ((server'.world.medias media).output_pads
          ≡ (server.world.medias media).output_pads ++ (task.buffer ∷ []))
unfolding answer
answer-pads server client name m task channel media plenty ex found has_media h =
    let fd = client.connection.skt in
    let server' = watch server name fd m in
    let pads = (server.world.medias media).output_pads in
    let result : Server = record server' {
      world = (clive_media_add_output server'.world media task.buffer m.pad_entry).1;
    } in
    (
      result,
      rw (ex, found, find-watch server name fd m task plenty h, has_media) refl,
      find-watch server name fd m task plenty h,
      unfold clive_media_add_output in
          simp plenty.1 (rw (==_self media, medias-watch server name fd m) refl),
    )
