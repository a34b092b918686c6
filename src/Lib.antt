-- ===== src/Lib.antt =====
-- The browser core of the repository. The program runs in Chromium's process structure: Java sends
-- messages over JNI, which change the settings, the blocker's lists and the rewriter's rules, answer
-- dialogs and command the tabs (shells); the network stack asks the blocker and the rewriter about each
-- request, and builds its contexts from the settings; renderers ask for style sheets. The modules follow
-- these parts, and Bridge puts those together that Java reaches.
--
-- Files and what they model:
--   Common (Tests, Lists, Text, Dict, Faults): shared helpers. Bytes are numbers, a string is a list of
--     them, a hash map is an association list, and a run that a failed check ends is `crash`.
--   Url: GURL as a record of operations, net::URLRequest and the net errors.
--   Host: the parent domains of a host, which several loops of the program walk.
--   Files: ReadFileToString of extra/file_util.cc.
--   Settings: protos/setting.proto and the singleton of extra/settings.cc (GetGlobalSettingsRef,
--     UpdateGlobalSettings); Preferences: UpdateWebPreferences; Ssl: extra/ssl_config_service.cc.
--   Blocker: block/blocker.h and block/blocker.cc. Whitelist: UpdateWhitelist and IsWhitelisted.
--     Blacklist: UpdateRulesForBrowserProcess, IsHostEvilThirdParty, ShouldBlockThirdPartyRequest and
--     ShouldClearReferrer. Stylesheets: UpdateRulesForRenderProcess and InjectStyleSheets. Loading:
--     UpdateRules, UpdateRulesWithPath, UpdateRulesWithFd and GetBlockingDataFd.
--   Rewriter: extra/https_rewriter.h and extra/https_rewriter.cc: UpdateRules, the constructor of
--     CompiledRuleSet, MaybeRewrite, MaybeRewriteForSuperHost and DoRewrite; Loading:
--     UpdateRulesWithPath. Keys: which rule set owns the string of each key.
--   Shell: shell/browser/shell.h and shell/browser/shell.cc. Registry: the look-ups, CreateShell,
--     LaunchShell, AddNewContents, Close and the destructor. Log: LogEvent, GetLog and the callbacks.
--     Favicon: DidUpdateFaviconURL. Commands: DispatchShellCommand and HandleShellCommand with
--     GetSSLStatus, GetSSLDetails, GetVisibleUrl, Load, Reload, DownloadFavicon and FindInPage.
--     WebPages: UpdateAllWebPreferences and UpdateWebPreferences. Opening: OpenURLFromTab. Icons:
--     FaviconDownloaded, with extra/gfx_util.cc and the menu of
--     shell/browser/shell_web_contents_view_delegate.cc.
--   Network: shell/browser/shell_network_delegate.cc and extra/cookie_access_policy.cc, which put the
--     blocker, the rewriter and the log together: OnBeforeURLRequest, OnCanGetCookies, OnCanSetCookie,
--     OnCanAccessFile.
--   Cookies: extra/split_cookie_store.h and extra/split_cookie_store.cc.
--   Scheme: extra/seaturtle_protocol_handler.cc, the pages under krypton://.
--   Proxy: extra/proxy_config_service.h and extra/proxy_config_service.cc.
--   Client: shell/browser/shell_content_browser_client.cc: certificate errors and permissions, with the
--     message OnNotifyDidCreateDocumentElement of shell.cc. Permissions: all permissions, with those of
--     shell/browser/shell_quota_permission_context.cc.
--   BrowserContext: shell/browser/shell_browser_context.cc, with CreateRequestContext of the client.
--   Startup: InitializeResourceBundle of shell/app/shell_main_delegate.cc, with
--     GetAdditionalMappedFilesForChildProcess of the client.
--   Downloads: shell/browser/shell_download_manager_delegate.cc and
--     shell/browser/shell_resource_dispatcher_host_delegate.cc.
--   Dialogs: shell/browser/shell_javascript_dialog_manager.cc. What a callback does when it is called
--     is not modelled.
--   ProcessCache: extra/process_cache.h and extra/process_cache.cc.
--   Context: shell/browser/shell_url_request_context_getter.h and .cc. Shared: the methods of
--     SharedState and ClearData; Build: the constructors and GetURLRequestContext. The proofs are split
--     over Extends, Got, Methods, Stores, Built, Keeps, Events, Isolation, Cleared
--     and Size.
--   Login: shell/browser/shell_login_dialog.h and .cc, with the queues of both threads.
--   Fetch: extra/fetch.h and extra/fetch.cc.
--   Renderer: shell/renderer/shell_render_view_observer.cc, shell_render_frame_observer.cc and
--     shell_content_renderer_client.cc, with Shell::OnMessageReceived.
--   Bridge: javaToNative of jni/jni_bridge.cc, over the states of the parts above. Closing: what a shell
--     that Java closes takes with it.
--   Fixtures: a simple URL type, shells, settings and a process, for tests only.
--
-- Parameters of the model: GURL (Url.UrlApi), RE2 (Rewriter.Re2Api), the public suffix list
-- (Cookies.SiteApi), the cookie stores of net (Cookies.CookieApi), blink::WebString and its conversion,
-- base::File and the file system, the parsers of protocol buffers, the protocol numbers of net, the
-- answers of Java, and the look-up of a WebContents by the ids of a renderer. They are code of
-- Chromium, RE2, protobuf and Java that is outside of the repository's C++.
--
-- Fuel: the `while (true)` loops over a host name run on one unit more than the host has bytes. Each
-- round drops at least one byte, and the theorems on these loops are equivalences for that fuel. The
-- loop of ReadFileToString runs over the list of the results that the reads of the file give.
-- Integers: counters that the code keeps in 32 bits wrap (% 2 ^ 32), and so does the sum of a favicon's width and
-- height; object addresses are numbers.
-- Keys: the blacklist and the host maps of the rewriter key their slots by StringPieces that do not own
-- their bytes. The model keeps, beside each slot, which string the key points into and which one the
-- slot keeps alive (Blocker.Backing, Rewriter.KeyOwner), and compares keys as the strings that they were
-- made from. That is what the code does unless a domain is blocked by two rules, or a host listed by two
-- rule sets: the theorems on what a look-up finds after an update ask that this is not so, and those on
-- requests take the maps as they are.
-- Threads: a method that checks its thread takes the thread; tasks that are posted to a thread stand in
-- a list in the order of posting, and the theorems on them speak of runs over sequences of events.
--
-- Not modelled: the conversion of messages from and to Java arrays, locks, the creation and the
-- ownership of Chromium's objects beyond the addresses that are compared, logging to the system log,
-- the build files and the command line; protocol buffers are the records they parse into.
mod Common
pub mod Url
pub mod Settings
pub mod Host
pub mod Blocker
pub mod Rewriter
pub mod Shell
pub mod Network
pub mod Cookies
pub mod Fixtures
pub mod Scheme
pub mod Proxy
pub mod Client
pub mod Dialogs
pub mod Files
pub mod Startup
pub mod Downloads
pub mod ProcessCache
pub mod Context
pub mod Login
pub mod Fetch
pub mod Renderer
pub mod BrowserContext
pub mod Bridge
