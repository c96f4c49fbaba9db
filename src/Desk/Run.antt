-- ===== src/Desk/Run.antt =====
-- internal/bridge/desk.go: the goroutine `run`, as a machine that stops wherever the code waits. A
-- step takes what the wait ended with, and gives the new state and what the code asks for next.
use mqtt_linak.Base.{
  ℕ, suc, ◌*◌, true, false, not, ◌||◌, Option, none, some, List, [], ◌∷◌, ◌++◌, ℤ, pos, ◌+ℤ◌,
  wrap64, leb, ltb_ℤ, leb_ℤ, if◌then◌else◌, is_nil,
}
use mqtt_linak.Config.{Config, Duration, second}
use mqtt_linak.Throttle.{flush, reset}
use mqtt_linak.Topics.{leaf_availability}
use mqtt_linak.Desk.{
  height, base_height, Command, Ending, stopped, dropped, failed, Characteristic, reference_output,
  reference_input, desk_panel, Place, top, resolving, connecting, creating, waking, stopping,
  owning, serving, discovering, rearming, moving, writing_base, reading_base, keeping_alive,
  sleeping, over, disconnecting, returned, Manager, Effect, publish_retained, connect, disconnect,
  forget_handles, new_desk, add_callback, get_characteristic, set_notify, wake_up, stop,
  take_ownership, base_offset, move, write_base_offset, sleep, wake_scanner, online_payload,
  offline_payload, mark_activity, idle_for, set_online, forget_peripheral, topic, publish_throttled,
  on_base_offset,
}

-- What a call that the goroutine waits for ended with. A desk that is created may be nil, or one
-- whose device is zero.
pub data Reply : Type 0 where
  done error : Reply
  value : ℤ → Reply
  nil_desk zero_desk : Reply

-- The ways out of the select of the serve loop.
pub data Wake : Type 0 where
  by_context by_disconnect by_flush by_keep_alive by_command : Wake

abbrev pub stable_connection : ℕ
stable_connection = 60 * second

-- `rand.Int63n(int64(d/4)+1)` gave `r`.
unfoldable pub jitter : Duration → ℤ → Duration
jitter d r = if leb_ℤ d (pos 0) then d else wrap64 (d +ℤ r)

-- `min(backoff*2, maxBackoff)`
unfoldable pub double_backoff : Duration → Duration → Duration
double_backoff backoff max =
    if ltb_ℤ max (wrap64 (backoff +ℤ backoff)) then max else wrap64 (backoff +ℤ backoff)

-- The deferred Disconnect, on every way out behind a successful Connect.
unfoldable pub leave : Ending → Manager → Manager × List Effect
leave e m = (record m { place = disconnecting e }, disconnect m.peripheral_id ∷ [])

-- `m.command(…)`: the write counts as activity when it goes out, and the goroutine waits for it.
unfoldable pub send : ℕ → Place → Effect → Manager → Manager × List Effect
unfolding mark_activity
send now p e m = (record (mark_activity now m) { place = p }, e ∷ [])

-- `m.resolve`, up to its select.
unfoldable pub resolve : Manager → Manager × List Effect
resolve m = (record m { want_resolve = true; place = resolving }, wake_scanner ∷ [])

-- The start of `connectAndServe`: a disconnect that is left over is drained.
unfoldable pub start_connect : Manager → Manager × List Effect
start_connect m =
    (record m { disconnected = false; place = connecting }, connect m.peripheral_id ∷ [])

-- The head of the loop of `run`.
unfoldable pub loop_top : Manager → Manager × List Effect
unfolding resolve start_connect
loop_top m =
    if m.cancelled
    then (record m { place = over }, [])
    else if is_nil m.peripheral_id
    then resolve m
    else start_connect m

-- The loop over the wanted characteristics.
unfoldable pub next_wanted : Characteristic → Option Characteristic
next_wanted reference_output = some reference_input
next_wanted reference_input = some desk_panel
next_wanted desk_panel = none

unfoldable pub begin_ownership : ℕ → Manager → Manager × List Effect
unfolding send
begin_ownership now m = send now owning take_ownership m

module _ (c : Config) where
  -- Behind the subscriptions.
  unfoldable pub begin_session : ℕ → Manager → Manager × List Effect
  unfolding send begin_ownership
  begin_session now m =
      if c.bluetooth.wake_on_connect then send now waking wake_up m else begin_ownership now m

  -- `ensureSubscriptions`, up to its first wait.
  unfoldable pub ensure_subscriptions : Manager → Manager × List Effect
  ensure_subscriptions m =
      if m.subs_set
      then (record m { place = rearming reference_output }, set_notify reference_output ∷ [])
      else (record m { place = creating }, new_desk ∷ [])

  -- What follows the ownership exchange, whatever it ended with.
  unfoldable pub announce : ℕ → Manager → Manager × List Effect
  unfolding set_online reset topic send
  announce now m =
      let m₁ = set_online true now (record m { consec_failure = 0 }) in
      let m₂ = record m₁ { throttle = reset m₁.throttle } in
      let (m₃, effects) = send now reading_base base_offset m₂ in
      (m₃, publish_retained (topic c m leaf_availability) online_payload ∷ effects)

  unfoldable pub apply : ℕ → Manager → Command → Manager × List Effect
  unfolding send
  apply now m cmd = elim cmd.kind [
    | height ↦ send now moving (move cmd.value) m
    | base_height ↦ send now writing_base (write_base_offset cmd.value) m
  ]

  unfoldable pub keep_alive : ℕ → Manager → Manager × List Effect
  unfolding idle_for send
  keep_alive now m =
      if leb_ℤ c.bluetooth.keep_alive_interval (pos 0) || (not m.has_desk || not m.online)
      then (m, [])
      else if ltb_ℤ (idle_for now m) c.bluetooth.keep_alive_interval
      then (m, [])
      else send now keeping_alive wake_up m

  -- The command at the head of the queue.
  unfoldable pub take_command : ℕ → Manager → List Command → Manager × List Effect
  unfolding apply
  take_command now m [] = (m, [])
  take_command now m (cmd ∷ cmds) = apply now (record m { commands = cmds }) cmd

  -- The select of the serve loop; a way out that is not ready is not taken.
  unfoldable pub serve : Wake → ℕ → Manager → Manager × List Effect
  unfolding leave publish_throttled flush keep_alive take_command
  serve by_context now m = if m.cancelled then leave stopped m else (m, [])
  serve by_disconnect now m =
      if m.disconnected then leave dropped (record m { disconnected = false }) else (m, [])
  serve by_flush now m = publish_throttled c m (flush m.throttle now)
  serve by_keep_alive now m = keep_alive now m
  serve by_command now m = take_command now m m.commands

  -- What follows a call that `connectAndServe` waits for.
  unfoldable pub replied : Place → Reply → ℕ → Manager → Manager × List Effect
  unfolding leave ensure_subscriptions begin_session begin_ownership announce next_wanted
      on_base_offset send
  replied connecting done now m = (
    record m { place = discovering reference_output },
    forget_handles ∷ get_characteristic reference_output ∷ [],
  )
  replied connecting r now m = (record m { place = returned failed }, [])
  replied (discovering w) done now m = elim (next_wanted w) [
    | some w' ↦ (record m { place = discovering w' }, get_characteristic w' ∷ [])
    | none ↦ ensure_subscriptions m
  ]
  replied (discovering w) r now m = leave failed m
  replied (rearming reference_output) done now m =
      (record m { place = rearming desk_panel }, set_notify desk_panel ∷ [])
  replied (rearming w) done now m = begin_session now m
  replied (rearming w) r now m = leave failed m
  replied creating done now m =
      let (m', effects) = begin_session now (record m { has_desk = true; subs_set = true }) in
      (m', add_callback ∷ effects)
  replied creating zero_desk now m = leave failed (record m { has_desk = true })
  replied creating r now m = leave failed (record m { has_desk = false })
  replied waking r now m = send now stopping stop m
  replied stopping r now m = begin_ownership now m
  replied owning r now m = announce now m
  replied reading_base (value v) now m =
      let (m', effects) = on_base_offset c m v in (record m' { place = serving }, effects)
  replied reading_base r now m = (record m { place = serving }, [])
  replied moving r now m = (record m { place = serving }, [])
  replied writing_base done now m = send now reading_base base_offset m
  replied writing_base r now m = (record m { place = serving }, [])
  replied keeping_alive r now m = (record m { place = serving }, [])
  replied (disconnecting e) r now m = (record m { place = returned e }, [])
  replied p r now m = (m, [])

  -- What follows `connectAndServe`: the desk is offline, and the ending decides about the backoff.
  unfoldable pub after_ending : Ending → Manager → Manager × List Effect
  unfolding forget_peripheral
  after_ending stopped m = (m, [])
  after_ending dropped m =
      if leb_ℤ (pos stable_connection) m.last_held
      then (record m { backoff = c.bluetooth.reconnect_min_backoff }, [])
      else (m, [])
  after_ending failed m =
      let m' = record m { consec_failure = suc m.consec_failure } in
      if leb 3 m'.consec_failure then forget_peripheral m' else (m', [])

  -- The rest of the round of `run`, up to its sleep; `r` is what the random source gives.
  unfoldable pub finish_round : Ending → ℤ → ℕ → Manager → Manager × List Effect
  unfolding set_online topic after_ending jitter
  finish_round e r now m =
      let m₁ = set_online false now m in
      let offline = publish_retained (topic c m leaf_availability) offline_payload in
      if m.cancelled
      then (record m₁ { place = over }, offline ∷ [])
      else let (m₂, effects) = after_ending e m₁ in
        (record m₂ { place = sleeping }, offline ∷ (effects ++ sleep (jitter m₂.backoff r) ∷ []))

  -- `sleepCtx` has returned true.
  unfoldable pub next_round : Manager → Manager × List Effect
  unfolding double_backoff
  next_round m = (
    record m { backoff = double_backoff m.backoff c.bluetooth.reconnect_max_backoff; place = top },
    [],
  )
