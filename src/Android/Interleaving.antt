-- ===== src/Android/Interleaving.antt =====
-- android_network_config.cc and ech_retry_handler.cc: a switch of the network works on the monitor
-- and then on the cache, each under its own lock, so that calls of other threads may come between.
use kiwi_network_patches.Prelude.{◌≡◌, ◌≢◌, refl, sym, ◌∙◌, ap, true, List, [], ◌∷◌, arith}
use kiwi_network_patches.Platform.LruCache.{LruOps}
use kiwi_network_patches.Retry.Cache.{CacheEntry, clear}
use kiwi_network_patches.Retry.Cache.Entries
use kiwi_network_patches.Retry.Cache.Entries.{Op}
use kiwi_network_patches.Retry.Monitor.{Stats, record_result, reset, clear_all}
use kiwi_network_patches.Retry.Monitor.History.{Event, handshake, resets, clears}
use kiwi_network_patches.Android.{
  ConnectionType, is_tracked, type_code, Device, on_active_network_changed, on_network_changed,
}

-- A call of a method of the cache or of the monitor.
pub data Call (K : Type 0) : Type 0 where
  on_cache : Op K → Call K
  on_monitor : Event K → Call K

module _ {K : Type 0} where
  -- The calls of one of the two objects, in their order.
  abbrev pub cache_calls : List (Call K) → List (Call K)
  cache_calls [] = []
  cache_calls (on_cache o ∷ calls) = on_cache o ∷ cache_calls calls
  cache_calls (on_monitor e ∷ calls) = cache_calls calls

  abbrev pub monitor_calls : List (Call K) → List (Call K)
  monitor_calls [] = []
  monitor_calls (on_cache o ∷ calls) = monitor_calls calls
  monitor_calls (on_monitor e ∷ calls) = on_monitor e ∷ monitor_calls calls

module _ {C K : Type 0} (ops : LruOps C K CacheEntry) (dec : Discrete K) where
  abbrev pub apply_event : Event K → Stats K → Stats K
  apply_event (handshake k b) m = record_result dec k b m
  apply_event (resets k) m = reset dec k m
  apply_event clears m = clear_all dec m

  abbrev pub call : Call K → Device C K → Device C K
  call (on_cache o) s = record s { cache = Entries.step ops o s.cache }
  call (on_monitor e) s = record s { monitor = apply_event e s.monitor }

  -- The calls in order, the oldest first.
  abbrev pub run : List (Call K) → Device C K → Device C K
  run [] s = s
  run (c ∷ calls) s = run calls (call c s)

  -- A switch to another network up to the call of `ClearAll`, that one included.
  abbrev pub begin_switch : ConnectionType → Device C K → Device C K
  begin_switch type s = record s { current_connection = type; monitor = clear_all dec s.monitor }

  -- Its call of `Clear`.
  abbrev pub finish_switch : Device C K → Device C K
  finish_switch s = record s { cache = clear ops s.cache }

  on_network_changed-switch :
      (type : ConnectionType) (s : Device C K)
      → is_tracked type ≡ true
      → type_code type ≢ type_code s.current_connection
      → on_network_changed ops dec type s ≡ finish_switch (begin_switch type s)
  unfolding on_network_changed on_active_network_changed
  on_network_changed-switch type s tracked other = ground arith

  current_connection-run :
      (calls : List (Call K)) (s : Device C K)
      → (run calls s).current_connection ≡ s.current_connection
  current_connection-run [] s = refl
  current_connection-run (on_cache o ∷ calls) s = current_connection-run calls _
  current_connection-run (on_monitor e ∷ calls) s = current_connection-run calls _

  -- The cache depends on the calls of its own methods alone, and so does the monitor.
  cache-run :
      (calls : List (Call K)) (s t : Device C K)
      → s.cache ≡ t.cache
      → (run calls s).cache ≡ (run (cache_calls calls) t).cache
  cache-run [] s t h = h
  cache-run (on_cache o ∷ calls) s t h =
      cache-run calls (call (on_cache o) s) (call (on_cache o) t) (ap (Entries.step ops o) h)
  cache-run (on_monitor e ∷ calls) s t h = cache-run calls (call (on_monitor e) s) t h

  monitor-run :
      (calls : List (Call K)) (s t : Device C K)
      → s.monitor ≡ t.monitor
      → (run calls s).monitor ≡ (run (monitor_calls calls) t).monitor
  monitor-run [] s t h = h
  monitor-run (on_cache o ∷ calls) s t h = monitor-run calls (call (on_cache o) s) t h
  monitor-run (on_monitor e ∷ calls) s t h =
      monitor-run calls (call (on_monitor e) s) (call (on_monitor e) t) (ap (apply_event e) h)

  cache-monitor_calls :
      (calls : List (Call K)) (s : Device C K) → (run (monitor_calls calls) s).cache ≡ s.cache
  cache-monitor_calls [] s = refl
  cache-monitor_calls (on_cache o ∷ calls) s = cache-monitor_calls calls s
  cache-monitor_calls (on_monitor e ∷ calls) s = cache-monitor_calls calls (call (on_monitor e) s)

  Device-ext :
      (s t : Device C K)
      → s.current_connection ≡ t.current_connection
      → s.monitor ≡ t.monitor
      → s.cache ≡ t.cache
      → s ≡ t
  Device-ext s t e0 e1 e2 =
      ap (λ c. record s { current_connection = c }) e0
      ∙ ap (λ m. record t { monitor = m; cache = s.cache }) e1
      ∙ ap (λ c. record t { cache = c }) e2

  -- A switch to another network, of those that the observer heeds, that other threads interrupt
  -- between its two calls, of `ClearAll` and of `Clear`, leaves the state of an atomic switch,
  -- behind the interrupting calls of the cache's methods and before those of the monitor's, each in
  -- their order. Until the last of its two calls, too, the interrupting calls find the cache or the
  -- monitor as it is there.
  pub on_network_changed-between :
      (type : ConnectionType) (between : List (Call K)) (s : Device C K)
      → is_tracked type ≡ true
      → type_code type ≢ type_code s.current_connection
      → let atomic = on_network_changed ops dec type (run (cache_calls between) s) in
        (finish_switch (run between (begin_switch type s)) ≡ run (monitor_calls between) atomic)
        × ((run between (begin_switch type s)).cache ≡ (run (cache_calls between) s).cache)
        × ((run between (begin_switch type s)).monitor
            ≡ (run (monitor_calls between) atomic).monitor)
  unfolding clear_all
  on_network_changed-between type between s tracked other =
      let before = run (cache_calls between) s in
      let here = current_connection-run (cache_calls between) s in
      let whole : on_network_changed ops dec type before
          ≡ finish_switch (begin_switch type before) =
        on_network_changed-switch type before tracked (λ e. other (e ∙ ap type_code here)) in
      rw whole (
        let atomic = finish_switch (begin_switch type before) in
        let frozen = cache-run between (begin_switch type s) s refl in
        let seen = monitor-run between (begin_switch type s) atomic refl in
        (
          Device-ext _ (run (monitor_calls between) atomic)
              (current_connection-run between (begin_switch type s)
                ∙ sym (current_connection-run (monitor_calls between) atomic))
              seen (ap (clear ops) frozen ∙ sym (cache-monitor_calls between atomic)),
          frozen,
          seen,
        ))
