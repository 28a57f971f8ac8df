-- ===== src/Lib.antt =====
-- Roamux, a Chromium overlay: a verification library for the logic of its browser code.
--
-- The repository adds features to Chromium under roamux/: visit-order navigation between tabs, a
-- refresh of all tabs to their initial urls, an auto-hide vertical tab strip, a bulk toggle of tab
-- groups, an update row, an importer, a proxy page. Most of each is glue to Chromium; the decisions
-- are made in small classes without dependencies, which this library models with the two stateful
-- parts of the visit-order navigation above them.
--
-- Parts and files.
--
-- Tab visits. TabVisit/Traversal is roamux/browser/tab_visit/tab_traversal_controller.{h,cc}: the
-- most-recently-used order out of the journal (DeriveMruOrder is derive_mru_order) and the gesture
-- that freezes it (begin_gesture, back, forward, settle). TabVisit/Store is visits_store.{h,cc} there:
-- the journal's two tables, Append as append, ClearForBrowsingDataRemoval as
-- clear_for_browsing_data_removal, UpsertTabState and GetTabState; a failing statement is an argument.
-- TabVisit/Coordinator is tab_visit_traversal_coordinator.{h,cc} there: it holds the log of settled
-- uids, drives the controller, reopens closed tabs and appends one visit for a gesture through the
-- journal; its methods take what they find in the browser and return effects.
-- Coordinator/Steps has the gesture (StepBack, StepForward, Settle, CancelGesture), Coordinator/Sidecar
-- the closed tabs and the clear, and Coordinator/Inputs what can happen, one call after another.
-- TabVisit/Bridge is tab_visit_observer_bridge.{h,cc} there, with tab_visit_activation_class.h and
-- visit_url_filter.cc: what a change of a tab strip records, and Bridge/Composed runs it together with
-- the coordinator.
--
-- Tabs. Tabs/Scheduler is roamux/browser/tabs/initial_url_refresh_scheduler.{h,cc}: which tab of a
-- refresh is loaded when; the delegate is a record of functions on a world, the timer and the posted
-- settles are explicit, and events come in any order. Tabs/SettleGate is navigation_settle_gate.{h,cc}
-- there: when a load that the refresh began has settled. Tabs/GroupHeader is
-- group_header_double_click.{h,cc} there: what a double click on a group header toggles, and the
-- recognition of that gesture. Tabs/UidService is tab_uid_service.{h,cc} there: the two maps between
-- tabs and their durable uids, with the random uid as an argument.
-- Tabs/RefreshRun is initial_url_refresh_run.{h,cc} there: the snapshot of the tabs, the load of an
-- item, and which messages of its contents report it settled, through the gate.
-- Tabs/InitialUrl is tab_initial_url_helper.{h,cc} there: which navigation gives a tab
-- its initial url, what the user may write there, and the text that the session keeps of it; GURL is a
-- parameter.
--
-- Strip. Ui/PinController is roamux/browser/ui/views/tabs/tab_strip_pin_controller.{h,cc}: the pin, the
-- suppression and the two locks of the auto-hide strip, with the calls of the delegate as effects.
--
-- Updates. Updates/Machine is roamux/browser/updates/update_state_machine.{h,cc}: the row of the
-- settings page as a machine over the events of the updater.
--
-- Importer. Importer/Report, Importer/Preflight and Importer/Coordinator are
-- roamux/browser/importer/edge_import_report.{h,cc}, edge_import_adapter.{h,cc} with
-- edge_import_preflight.{h,cc}, and roamux_edge_import_coordinator.{h,cc}: what is found of Edge in the
-- file system, which is a parameter, and the steps by which each requested carrier is imported or
-- turned down. A call of the coordinator ends where the code posts a task or starts a stage; the reply
-- is the next call. Importer/Profile and Importer/Bookmarks are
-- roamux/utility/importer/edge_profile_reader.{h,cc}: which profile of Edge is read
-- (ResolveEdgeProfileDir) and what of its bookmarks (CollectBookmarks).
--
-- Proxy. Proxy/Builder is roamux/browser/proxy/proxy_config_builder.{h,cc}: the validation of the
-- fields of the proxy page and the dictionary that is stored, with net's reading of texts as a
-- parameter.
--
-- Conventions. A C++ method that changes its object is a function from the old object to the new, with
-- its result and its effects beside it. Numbers are native naturals; an `int` that can be negative is
-- Base's ℤ. An index -1 or an empty optional is `none`. Sets and maps are lists read by membership or by
-- the first entry of a key. Base holds the lists, texts and integers that the parts share.
--
-- Fuel and bounds. The walk visits_back takes the length of the order as fuel, since each landing
-- moves the cursor up in it; a run of the refresh that only its timer drives takes two firings for
-- each item. The loops of the code are structural recursion on what is left of the list. The journal
-- keeps 999 rows, as kMaxVisits says.
--
-- Not modelled: Chromium itself (profiles, windows, web contents, timers, task runners, prefs, SQLite)
-- is behind the arguments and effects above; ids, times and urls are opaque where the code only
-- compares them. Of the store, the opening and migration of the file and ReadTabStates are left out; of
-- the coordinator, the choice of the window that a tab is reopened in; of the profile reader, the rows
-- of history, search engines and forms. What a callback does inside the call that runs it is a later
-- event here: a change of the strip inside the activation of Settle, a call of the pin controller inside
-- the release of a lock. A read of the store whose Step fails is not modelled, a failing write is. The
-- stages, the other readers and the driver of the importer, the handler of the proxy page, the placement
-- of new tabs, the bookmarks menu, the commands around the refresh, the update service, the views, the
-- web pages and the mac code are not modelled.
pub mod Base
pub mod Updates
pub mod Importer
pub mod Proxy
pub mod TabVisit
pub mod Tabs
pub mod Ui
